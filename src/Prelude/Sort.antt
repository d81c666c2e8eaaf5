-- ===== src/Prelude/Sort.antt =====
-- `sort_by_key` on a `Vec`. The source sorts by `sort_unstable_by_key`, which leaves the order of
-- equal keys open; this is the stable choice.
use Prim.Native.Nat.{ℕ, zero, suc, ◌≤◌}
use mathlib.Core.Path.{◌≡◌, refl}
use mathlib.Core.List.{List, [], ◌∷◌, Perm}
use mathlib.Core.List.Perm
use mathlib.Core.Logic.{ite, if_pos, if_neg}
use native.Mathlib.Decide.{dec_le}
use native.Mathlib.Omega.{arith}
use auth_kademlia.Prelude.{length, take, drop, All, All-take, All-drop}

module _ {ℓ} {A : Type ℓ} (key : A → ℕ) where
  insert_by_key : A → List A → List A
  insert_by_key x [] = x ∷ []
  insert_by_key x (y ∷ ys) = ite (dec_le (key x) (key y)) (x ∷ y ∷ ys) (y ∷ insert_by_key x ys)

  unfoldable pub sort_by_key : List A → List A
  unfolding insert_by_key dec_le
  sort_by_key [] = []
  sort_by_key (x ∷ xs) = insert_by_key x (sort_by_key xs)

  abbrev pub IsSortedBy : List A → Type 0
  IsSortedBy [] = Unit
  IsSortedBy (x ∷ xs) = All (λ y. key x ≤ key y) xs × IsSortedBy xs

  insert_by_key-perm : (x : A) (xs : List A) → Perm (insert_by_key x xs) (x ∷ xs)
  unfolding insert_by_key
  insert_by_key-perm x [] = Perm.refl _
  insert_by_key-perm x (y ∷ ys) = elim (dec_le (key x) (key y)) [
    | yes p ↦ rw (if_pos _ p) (Perm.refl _)
    | no p ↦ rw (if_neg _ p) (Perm.trans (Perm.cons y (insert_by_key-perm x ys)) (Perm.swap x y ys))
  ]

  length-insert_by_key : (x : A) (xs : List A) → length (insert_by_key x xs) ≡ suc (length xs)
  unfolding insert_by_key
  length-insert_by_key x [] = refl
  length-insert_by_key x (y ∷ ys) = ground (arith, length-insert_by_key x ys)

  pub sort_by_key-perm : (xs : List A) → Perm (sort_by_key xs) xs
  unfolding sort_by_key
  sort_by_key-perm [] = Perm.refl _
  sort_by_key-perm (x ∷ xs) =
      Perm.trans (insert_by_key-perm x (sort_by_key xs)) (Perm.cons x (sort_by_key-perm xs))

  insert_by_key-All {κ} :
      (P : A → Type κ) (x : A) (xs : List A) → P x → All P xs → All P (insert_by_key x xs)
  unfolding insert_by_key
  insert_by_key-All P x [] h hs = (h, tt)
  insert_by_key-All P x (y ∷ ys) h hs = elim (dec_le (key x) (key y)) [
    | yes p ↦ rw (if_pos _ p) (h, hs)
    | no p ↦ rw (if_neg _ p) (hs.0, insert_by_key-All P x ys h hs.1)
  ]

  pub sort_by_key-All {κ} : (P : A → Type κ) (xs : List A) → All P xs → All P (sort_by_key xs)
  unfolding sort_by_key
  sort_by_key-All P [] h = tt
  sort_by_key-All P (x ∷ xs) h =
      insert_by_key-All P x (sort_by_key xs) h.0 (sort_by_key-All P xs h.1)

  All-le_trans : (a b : ℕ) (xs : List A) → a ≤ b → All (λ y. b ≤ key y) xs → All (λ y. a ≤ key y) xs
  All-le_trans a b [] h hs = tt
  All-le_trans a b (x ∷ xs) h hs = (omega arith, All-le_trans a b xs h hs.1)

  insert_by_key-IsSortedBy : (x : A) (xs : List A) → IsSortedBy xs → IsSortedBy (insert_by_key x xs)
  unfolding insert_by_key
  insert_by_key-IsSortedBy x [] h = (tt, tt)
  insert_by_key-IsSortedBy x (y ∷ ys) h = elim (dec_le (key x) (key y)) [
    | yes p ↦ rw (if_pos _ p) ((p, All-le_trans (key x) (key y) ys p h.0), h)
    | no p ↦ rw (if_neg _ p) (
      insert_by_key-All (λ z. key y ≤ key z) x ys (omega arith) h.0,
      insert_by_key-IsSortedBy x ys h.1,
    )
  ]

  pub sort_by_key-IsSortedBy : (xs : List A) → IsSortedBy (sort_by_key xs)
  unfolding sort_by_key
  sort_by_key-IsSortedBy [] = tt
  sort_by_key-IsSortedBy (x ∷ xs) =
      insert_by_key-IsSortedBy x (sort_by_key xs) (sort_by_key-IsSortedBy xs)

  -- In a sorted list nothing that is cut off comes before what is kept.
  pub IsSortedBy-split :
      (n : ℕ) (xs : List A)
      → IsSortedBy xs
      → All (λ a. All (λ b. key a ≤ key b) (drop n xs)) (take n xs)
  IsSortedBy-split zero xs h = tt
  IsSortedBy-split (suc n) [] h = tt
  IsSortedBy-split (suc n) (x ∷ xs) h = (All-drop _ n xs h.0, IsSortedBy-split n xs h.1)

  pub IsSortedBy-take : (n : ℕ) (xs : List A) → IsSortedBy xs → IsSortedBy (take n xs)
  IsSortedBy-take zero xs h = tt
  IsSortedBy-take (suc n) [] h = tt
  IsSortedBy-take (suc n) (x ∷ xs) h = (All-take _ n xs h.0, IsSortedBy-take n xs h.1)

  pub length-sort_by_key : (xs : List A) → length (sort_by_key xs) ≡ length xs
  unfolding sort_by_key
  length-sort_by_key [] = refl
  length-sort_by_key (x ∷ xs) =
      omega (arith, length-insert_by_key x (sort_by_key xs), length-sort_by_key xs)
