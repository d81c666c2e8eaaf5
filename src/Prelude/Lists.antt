-- ===== src/Prelude/Lists.antt =====
-- Lists measured and cut by native numbers, under the library's names.
use Prim.Native.Nat.{ℕ, zero, suc, ◌+◌, ◌-◌, ◌≤◌, min}
use Prim.Native.Nat.add
use mathlib.Core.Path.{◌≡◌, refl, ap}
use mathlib.Core.Bool.{Bool, true, false, ◌||◌}
use mathlib.Core.List.{List, [], ◌∷◌, ◌++◌, map, Sublist, nil-sublist}
use mathlib.Core.List.Sublist
use mathlib.Core.Option
use mathlib.Core.Option.{Option, none, some}
use mathlib.Core.Logic.{inl, inr}
use native.Mathlib.Omega.{arith}
use auth_kademlia.Prelude.Tests.{Bool-cases, Option-cases}

module _ {ℓ} {A : Type ℓ} where
  abbrev pub length : List A → ℕ
  length [] = 0
  length (x ∷ xs) = suc (length xs)

  abbrev pub get_elem? : List A → ℕ → Option A
  get_elem? [] i = none
  get_elem? (x ∷ xs) zero = some x
  get_elem? (x ∷ xs) (suc i) = get_elem? xs i

  abbrev pub get_or : List A → ℕ → A → A
  get_or [] i d = d
  get_or (x ∷ xs) zero d = x
  get_or (x ∷ xs) (suc i) d = get_or xs i d

  abbrev pub take : ℕ → List A → List A
  take zero xs = []
  take (suc n) [] = []
  take (suc n) (x ∷ xs) = x ∷ take n xs

  abbrev pub drop : ℕ → List A → List A
  drop zero xs = xs
  drop (suc n) [] = []
  drop (suc n) (x ∷ xs) = drop n xs

  -- A write out of bounds changes nothing.
  abbrev pub set : List A → ℕ → A → List A
  set [] i v = []
  set (x ∷ xs) zero v = v ∷ xs
  set (x ∷ xs) (suc i) v = x ∷ set xs i v

  abbrev pub replicate : ℕ → A → List A
  replicate zero a = []
  replicate (suc n) a = a ∷ replicate n a

  abbrev pub All {κ} : (A → Type κ) → List A → Type κ
  All P [] = Unit {κ}
  All P (x ∷ xs) = P x × All P xs

  -- `iter().any(p)`, `iter().position(p)`, `retain(p)` and `remove(i)` of a `Vec` or `VecDeque`.
  unfoldable pub any : (A → Bool) → List A → Bool
  any p [] = false
  any p (x ∷ xs) = p x || any p xs

  unfoldable pub position : (A → Bool) → List A → Option ℕ
  position p [] = none
  position p (x ∷ xs) = elim (p x) [ true ↦ some 0 | false ↦ Option.map suc (position p xs) ]

  unfoldable pub retain : (A → Bool) → List A → List A
  retain p [] = []
  retain p (x ∷ xs) = let rest = retain p xs in elim (p x) [ true ↦ x ∷ rest | false ↦ rest ]

  unfoldable pub remove_at : List A → ℕ → List A
  remove_at [] i = []
  remove_at (x ∷ xs) zero = xs
  remove_at (x ∷ xs) (suc i) = x ∷ remove_at xs i

  pub length-append : (xs ys : List A) → length (xs ++ ys) ≡ length xs + length ys
  length-append [] ys = omega arith
  length-append (x ∷ xs) ys = omega (arith, length-append xs ys)

  pub take-append-drop : (n : ℕ) (xs : List A) → take n xs ++ drop n xs ≡ xs
  take-append-drop zero xs = refl
  take-append-drop (suc n) [] = refl
  take-append-drop (suc n) (x ∷ xs) = rw (take-append-drop n xs)

  pub take_of_length-le : (size : ℕ) (ys : List A) → length ys ≤ size → take size ys ≡ ys
  take_of_length-le (suc size) (y ∷ ys) fits = rw (take_of_length-le size ys (omega arith)) refl
  take_of_length-le (suc size) [] fits = refl
  take_of_length-le zero [] fits = refl
  take_of_length-le zero (y ∷ ys) fits = absurd (omega arith)

  drop_nil : (n : ℕ) → drop n [] ≡ []
  drop_nil zero = refl
  drop_nil (suc n) = refl

  pub length-take : (n : ℕ) (xs : List A) → length (take n xs) ≡ min n (length xs)
  length-take zero xs = omega arith
  length-take (suc n) [] = omega arith
  length-take (suc n) (x ∷ xs) = omega (arith, length-take n xs)

  pub drop-drop : (m n : ℕ) (xs : List A) → drop n (drop m xs) ≡ drop (m + n) xs
  drop-drop zero n xs = rw add.zero
  drop-drop (suc m) n [] = rw add.suc (drop_nil n)
  drop-drop (suc m) n (x ∷ xs) = rw add.suc (drop-drop m n xs)

  pub length-drop : (n : ℕ) (xs : List A) → length (drop n xs) ≡ length xs - n
  length-drop zero xs = omega arith
  length-drop (suc n) [] = omega arith
  length-drop (suc n) (x ∷ xs) = omega (arith, length-drop n xs)

  pub get_elem?-set_ne :
      (xs : List A) (i j : ℕ) (v : A) → (j ≡ i → ⊥) → get_elem? (set xs i v) j ≡ get_elem? xs j
  get_elem?-set_ne [] i j v h = refl
  get_elem?-set_ne (x ∷ xs) zero zero v h = absurd (h refl)
  get_elem?-set_ne (x ∷ xs) zero (suc j) v h = refl
  get_elem?-set_ne (x ∷ xs) (suc i) zero v h = refl
  get_elem?-set_ne (x ∷ xs) (suc i) (suc j) v h = get_elem?-set_ne xs i j v (λ e. h (ap suc e))

  pub length-set : (xs : List A) (i : ℕ) (v : A) → length (set xs i v) ≡ length xs
  length-set [] i v = refl
  length-set (x ∷ xs) zero v = refl
  length-set (x ∷ xs) (suc i) v = ap suc (length-set xs i v)

module _ {ℓ} {A : Type ℓ} where
  -- `take` and `drop` at the seam of an append.
  pub take-append_length : (xs ys : List A) (n : ℕ) → n ≡ length xs → take n (xs ++ ys) ≡ xs
  take-append_length [] ys zero h = refl
  take-append_length [] ys (suc n) h = absurd (omega arith)
  take-append_length (x ∷ xs) ys zero h = absurd (omega arith)
  take-append_length (x ∷ xs) ys (suc n) h = ap (◌∷◌ x) (take-append_length xs ys n (omega arith))

  pub drop-append_length : (xs ys : List A) (n : ℕ) → n ≡ length xs → drop n (xs ++ ys) ≡ ys
  drop-append_length [] ys zero h = refl
  drop-append_length [] ys (suc n) h = absurd (omega arith)
  drop-append_length (x ∷ xs) ys zero h = absurd (omega arith)
  drop-append_length (x ∷ xs) ys (suc n) h = drop-append_length xs ys n (omega arith)

module _ {ℓ κ} {A : Type ℓ} (P : A → Type κ) where
  pub All-intro : ((x : A) → P x) → (xs : List A) → All P xs
  All-intro f [] = tt
  All-intro f (x ∷ xs) = (f x, All-intro f xs)

  pub All-take : (n : ℕ) (xs : List A) → All P xs → All P (take n xs)
  All-take zero xs h = tt
  All-take (suc n) [] h = tt
  All-take (suc n) (x ∷ xs) h = (h.0, All-take n xs h.1)

  pub All-drop : (n : ℕ) (xs : List A) → All P xs → All P (drop n xs)
  All-drop zero xs h = h
  All-drop (suc n) [] h = tt
  All-drop (suc n) (x ∷ xs) h = All-drop n xs h.1

  pub All-append : (xs ys : List A) → All P xs → All P ys → All P (xs ++ ys)
  All-append [] ys hx hy = hy
  All-append (x ∷ xs) ys hx hy = (hx.0, All-append xs ys hx.1 hy)

  pub All-append_left : (xs ys : List A) → All P (xs ++ ys) → All P xs
  All-append_left [] ys h = tt
  All-append_left (x ∷ xs) ys h = (h.0, All-append_left xs ys h.1)

  pub All-append_right : (xs ys : List A) → All P (xs ++ ys) → All P ys
  All-append_right [] ys h = h
  All-append_right (x ∷ xs) ys h = All-append_right xs ys h.1

  pub All-retain : (p : A → Bool) (xs : List A) → All P xs → All P (retain p xs)
  unfolding retain
  All-retain p [] h = tt
  All-retain p (x ∷ xs) h = ground (arith, All-retain p xs h.1)

  pub All-remove_at : (xs : List A) (i : ℕ) → All P xs → All P (remove_at xs i)
  unfolding remove_at
  All-remove_at [] i h = tt
  All-remove_at (x ∷ xs) zero h = h.1
  All-remove_at (x ∷ xs) (suc i) h = (h.0, All-remove_at xs i h.1)

  pub All-map {κ'} : (Q : A → Type κ') → ((x : A) → P x → Q x) → (xs : List A) → All P xs → All Q xs
  All-map Q f [] h = tt
  All-map Q f (x ∷ xs) h = (f x h.0, All-map Q f xs h.1)

pub All-zip {ℓ κ κ' κ''} :
    {A : Type ℓ} (P : A → Type κ) (Q : A → Type κ') (R : A → Type κ'')
    → ((x : A) → P x → Q x → R x)
    → (xs : List A) → All P xs
    → All Q xs
    → All R xs
All-zip P Q R f [] p q = tt
All-zip P Q R f (x ∷ xs) p q = (f x p.0 q.0, All-zip P Q R f xs p.1 q.1)

module _ {ℓ} {A : Type ℓ} (p : A → Bool) where
  pub length-retain-le : (xs : List A) → length (retain p xs) ≤ length xs
  unfolding retain
  length-retain-le [] = omega arith
  length-retain-le (x ∷ xs) = ground (arith, length-retain-le xs)

  -- Where `position` finds an element, the list is split there.
  pub position_split :
      (xs : List A) {i : ℕ}
      → position p xs ≡ some i
      → (before : List A) × (x : A) × (after : List A) × (xs ≡ before ++ (x ∷ after))
        × (length before ≡ i)
        × (p x ≡ true)
        × All (λ y. p y ≡ false) before
        × (remove_at xs i ≡ before ++ after)
  unfolding position remove_at
  position_split [] h = cc
  position_split (x ∷ xs) {i} h = elim (Bool-cases (p x)) [
    | inl e ↦ let z : 0 ≡ i = ground arith in ([], x, xs, refl, z, e, tt, rw (← z) refl)
    | inr e ↦ elim (Option-cases (position p xs)) [
      | inl absent ↦ absurd (ground arith)
      | inr (j, found) ↦
          let z : suc j ≡ i = ground arith in
          let (before, y, after, whole, len, hit, misses, rest) = position_split xs found in
          (
            x ∷ before,
            y,
            after,
            ap (◌∷◌ x) whole,
            omega arith,
            hit,
            (e, misses),
            rw (← z) (ap (◌∷◌ x) rest),
          )
    ]
  ]

  pub position_absent : (xs : List A) → position p xs ≡ none → All (λ y. p y ≡ false) xs
  unfolding position
  position_absent [] h = tt
  position_absent (x ∷ xs) h = elim (Bool-cases (p x)) [
    | inl e ↦ absurd (ground arith)
    | inr e ↦ elim (Option-cases (position p xs)) [
      | inl absent ↦ (e, position_absent xs absent)
      | inr (j, found) ↦ absurd (ground arith)
    ]
  ]

module _ {ℓ κ} {A : Type ℓ} {B : Type κ} (f : A → B) where
  pub map-take-sublist : (n : ℕ) (xs : List A) → Sublist (map f (take n xs)) (map f xs)
  map-take-sublist zero xs = nil-sublist _
  map-take-sublist (suc n) [] = nil-sublist _
  map-take-sublist (suc n) (x ∷ xs) = Sublist.cons-cons (f x) (map-take-sublist n xs)

  pub map-retain-sublist : (p : A → Bool) (xs : List A) → Sublist (map f (retain p xs)) (map f xs)
  unfolding retain
  map-retain-sublist p [] = nil-sublist _
  map-retain-sublist p (x ∷ xs) = elim (Bool-cases (p x)) [
    | inl e ↦ rw (e, retain) (Sublist.cons-cons (f x) (map-retain-sublist p xs))
    | inr e ↦ rw (e, retain) (Sublist.cons (f x) (map-retain-sublist p xs))
  ]

  pub length-map : (xs : List A) → length (map f xs) ≡ length xs
  length-map [] = refl
  length-map (x ∷ xs) = ap suc (length-map xs)
