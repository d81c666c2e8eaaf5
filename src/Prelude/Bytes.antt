-- ===== src/Prelude/Bytes.antt =====
-- Byte strings as lists of numbers, and the big-endian codecs of the standard library
-- (`from_be_bytes`, `to_be_bytes`).
use Prim.Native.Nat.add
use Prim.Native.Nat.pow
use native.Mathlib.Nat.{pow-suc, zero-add, suc-add}
use auth_kademlia.Prelude.{
  ℕ, zero, suc, ◌+◌, ◌*◌, ◌/◌, ◌%◌, ◌^◌, ◌<◌, ◌≡◌, refl, ap, ◌∙◌, List, [], ◌∷◌, ◌++◌, length, All,
  length-append, ℕ_discrete, arith,
}

abbrev pub Bytes : Type 0
Bytes = List ℕ

abbrev pub IsByte : ℕ → Type 0
IsByte b = b < 256

-- `==` on byte strings.
unfoldable pub bytes_eq : Discrete Bytes
unfolding ℕ_discrete
bytes_eq = hlevel ℕ_discrete

be_loop : ℕ → Bytes → ℕ
be_loop acc [] = acc
be_loop acc (b ∷ bs) = be_loop (acc * 256 + b) bs

unfoldable pub from_be_bytes : Bytes → ℕ
unfolding be_loop
from_be_bytes = be_loop 0

-- `n.to_be_bytes()` at a width of `w` bytes.
unfoldable pub to_be_bytes : ℕ → ℕ → Bytes
to_be_bytes zero n = []
to_be_bytes (suc w) n = to_be_bytes w (n / 256) ++ (n % 256) ∷ []

be_loop_acc : (acc : ℕ) (bs : Bytes) → be_loop acc bs ≡ acc * 256 ^ length bs + be_loop 0 bs
unfolding be_loop
be_loop_acc acc [] = omega arith
be_loop_acc acc (b ∷ bs) = ground (
  arith,
  be_loop_acc (acc * 256 + b) bs,
  be_loop_acc (0 + b) bs,
  add.zero b,
  ap (λ (t : ℕ). acc * t) (pow-suc 256 (length bs)),
)

from_be_bytes-nil : from_be_bytes [] ≡ 0
unfolding from_be_bytes
from_be_bytes-nil = refl

pow-add : (b m n : ℕ) → b ^ (m + n) ≡ b ^ m * b ^ n
pow-add b zero n = rw (zero-add, pow.zero) (omega arith)
pow-add b (suc m) n = rw (suc-add, pow-suc, pow-suc, pow-add b m n) (grind arith)

pub from_be_bytes-cons :
    (b : ℕ) (bs : Bytes) → from_be_bytes (b ∷ bs) ≡ b * 256 ^ length bs + from_be_bytes bs
unfolding from_be_bytes be_loop
from_be_bytes-cons b bs = rw zero-add (be_loop_acc b bs)

pub from_be_bytes-append :
    (xs ys : Bytes)
    → from_be_bytes (xs ++ ys) ≡ from_be_bytes xs * 256 ^ length ys + from_be_bytes ys
from_be_bytes-append [] ys = rw from_be_bytes-nil (omega arith)
from_be_bytes-append (x ∷ xs) ys =
    from_be_bytes-cons x (xs ++ ys)
    ∙ (rw
        (
          length-append,
          pow-add 256 (length xs) (length ys),
          from_be_bytes-append xs ys,
          from_be_bytes-cons x xs,
        )
        (omega arith))

pub length-to_be_bytes : (w n : ℕ) → length (to_be_bytes w n) ≡ w
unfolding to_be_bytes
length-to_be_bytes zero n = refl
length-to_be_bytes (suc w) n = omega (
  arith,
  length-append (to_be_bytes w (n / 256)) ((n % 256) ∷ []),
  length-to_be_bytes w (n / 256),
)

pub from_be_bytes-lt : (bs : Bytes) → All IsByte bs → from_be_bytes bs < 256 ^ length bs
from_be_bytes-lt [] h = omega (arith, from_be_bytes-nil)
from_be_bytes-lt (b ∷ bs) h =
    grind (arith, from_be_bytes-cons b bs, from_be_bytes-lt bs h.1, pow-suc 256 (length bs))

pub from_be_bytes_width :
    (w : ℕ) (bs : Bytes) → length bs ≡ w → All IsByte bs → from_be_bytes bs < 256 ^ w
from_be_bytes_width w bs e h = rw (← e) (from_be_bytes-lt bs h)

pub from_be_bytes-to_be_bytes : (w n : ℕ) → n < 256 ^ w → from_be_bytes (to_be_bytes w n) ≡ n
unfolding to_be_bytes
from_be_bytes-to_be_bytes zero n h = omega (arith, from_be_bytes-nil)
from_be_bytes-to_be_bytes (suc w) n h = omega (
  arith,
  from_be_bytes-append (to_be_bytes w (n / 256)) ((n % 256) ∷ []),
  from_be_bytes-cons (n % 256) [],
  from_be_bytes-nil,
  pow-suc 256 w,
  from_be_bytes-to_be_bytes w (n / 256) (omega (arith, pow-suc 256 w)),
)
