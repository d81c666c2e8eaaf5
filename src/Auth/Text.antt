-- ===== src/Auth/Text.antt =====
-- What src/auth_handler.rs and src/crypto use of the standard library's `str`, on bytes.
use mathlib.Core.List.{reverse}
use auth_kademlia.Prelude.{
  ℕ, zero, suc, ◌+◌, ◌-◌, ◌*◌, Bool, true, false, ◌&&◌, ◌||◌, Option, none, some, [], ◌∷◌, length,
  drop, leb, ◌==◌, if◌then◌else◌,
}
use auth_kademlia.Prelude.Bytes.{Bytes}

abbrev within : ℕ → ℕ → ℕ → Bool
within lo hi b = leb lo b && leb b hi

-- What a byte at the start of a character asks for: the count of bytes that follow, and the range of
-- the first of them.
unfoldable pub utf8_lead : ℕ → Option (ℕ × ℕ × ℕ)
utf8_lead b =
    if within 0 127 b
    then some (0, 0, 0)
    else if within 194 223 b
    then some (1, 128, 191)
    else if b == 224
    then some (2, 160, 191)
    else if b == 237
    then some (2, 128, 159)
    else if within 225 239 b
    then some (2, 128, 191)
    else if b == 240
    then some (3, 144, 191)
    else if within 241 243 b
    then some (3, 128, 191)
    else if b == 244
    then some (3, 128, 143)
    else none

-- `from_utf8`: with `pending` bytes to come, the next one from `lo` to `hi`.
unfoldable pub utf8_from : ℕ → ℕ → ℕ → Bytes → Bool
unfolding utf8_lead
utf8_from zero lo hi [] = true
utf8_from (suc n) lo hi [] = false
utf8_from zero lo hi (b ∷ bs) = elim (utf8_lead b) [
  | none ↦ false
  | some (n, l, h) ↦ utf8_from n l h bs
]
utf8_from (suc n) lo hi (b ∷ bs) =
    let rest = utf8_from n 128 191 bs in if within lo hi b then rest else false

unfoldable pub is_utf8 : Bytes → Bool
unfolding utf8_from
is_utf8 bs = utf8_from 0 0 0 bs

-- The characters of `White_Space`, of one, two and three bytes.
unfoldable pub space_of_one : ℕ → Bool
space_of_one a = within 9 13 a || a == 32

unfoldable pub space_of_two : ℕ → ℕ → Bool
space_of_two a b = a == 194 && (b == 133 || b == 160)

unfoldable pub space_of_three : ℕ → ℕ → ℕ → Bool
space_of_three a b c =
    (a == 225 && b == 154 && c == 128)
    || (a == 226 && b == 128 && (within 128 138 c || c == 168 || c == 169 || c == 175))
    || (a == 226 && b == 129 && c == 159)
    || (a == 227 && b == 128 && c == 128)

-- How many bytes the white space at the start takes, 0 without one.
unfoldable pub leading_space : Bytes → ℕ
unfolding space_of_one space_of_two space_of_three
leading_space [] = 0
leading_space (a ∷ []) = if space_of_one a then 1 else 0
leading_space (a ∷ b ∷ []) = if space_of_one a then 1 else if space_of_two a b then 2 else 0
leading_space (a ∷ b ∷ c ∷ bs) =
    if space_of_one a
    then 1
    else if space_of_two a b
    then 2
    else if space_of_three a b c
    then 3
    else 0

-- The same at the end, of bytes that are listed from the last one.
unfoldable pub trailing_space : Bytes → ℕ
trailing_space [] = 0
trailing_space (c ∷ []) = if space_of_one c then 1 else 0
trailing_space (c ∷ b ∷ []) = if space_of_one c then 1 else if space_of_two b c then 2 else 0
trailing_space (c ∷ b ∷ a ∷ bs) =
    if space_of_one c
    then 1
    else if space_of_two b c
    then 2
    else if space_of_three a b c
    then 3
    else 0

-- White space after white space, at most one per byte.
unfoldable pub strip : (Bytes → ℕ) → ℕ → Bytes → Bytes
strip space zero bs = bs
strip space (suc fuel) bs =
    let rest = strip space fuel (drop (space bs) bs) in if space bs == 0 then bs else rest

unfoldable pub trim : Bytes → Bytes
unfolding strip leading_space trailing_space
trim bs =
    let started = strip leading_space (length bs) bs in
    reverse (strip trailing_space (length started) (reverse started))

-- `trim_end_matches` for one byte.
unfoldable pub drop_while : ℕ → Bytes → Bytes
drop_while b [] = []
drop_while b (a ∷ bs) = let rest = drop_while b bs in if a == b then rest else a ∷ bs

unfoldable pub trim_end_matches : ℕ → Bytes → Bytes
unfolding drop_while
trim_end_matches b bs = reverse (drop_while b (reverse bs))

-- The first part of `split('-')`, and the second one of `splitn(2, '-')`.
unfoldable pub before_dash : Bytes → Bytes
before_dash [] = []
before_dash (b ∷ bs) = let rest = before_dash bs in if b == 45 then [] else b ∷ rest

unfoldable pub after_dash : Bytes → Option Bytes
after_dash [] = none
after_dash (b ∷ bs) = let rest = after_dash bs in if b == 45 then some bs else rest

-- `parse::<u8>`: decimal digits, at least one, after one `+` at most, with no overflow on the way.
unfoldable pub digits_from : ℕ → Bytes → Option ℕ
digits_from n [] = some n
digits_from n (b ∷ bs) =
    let m = n * 10 + (b - 48) in
    let rest = digits_from m bs in if within 48 57 b && leb m 255 then rest else none

unfoldable pub digits_of : Bytes → Option ℕ
unfolding digits_from
digits_of [] = none
digits_of (b ∷ bs) = digits_from 0 (b ∷ bs)

unfoldable pub parse_u8 : Bytes → Option ℕ
unfolding digits_of
parse_u8 [] = none
parse_u8 (b ∷ bs) = if b == 43 then digits_of bs else digits_of (b ∷ bs)
