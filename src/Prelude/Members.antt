-- ===== src/Prelude/Members.antt =====
-- `All` and the library's `Mem`, `Perm`: predicates that are propositions.
use mathlib.Core.List.{
  List, [], ◌∷◌, Mem, Perm, not-mem-nil, mem-cons, mem-cons_self, mem-cons_of_mem,
}
use mathlib.Core.List.Perm
use mathlib.Core.Logic.Or
use mathlib.Core.Logic.{∥∥₁_elim}
use mathlib.Core.List.{Permᴰ}
use mathlib.Core.Path.{◌≡◌, refl, subst, sym}
use native.Mathlib.Nat.{ℕ_set}
use native.Mathlib.Omega.{arith}
use auth_kademlia.Prelude.{length, All}

module _ {ℓ κ} {A : Type ℓ} (P : A → Type κ) where
  pub All-of_mem : (xs : List A) → ((x : A) → Mem x xs → P x) → All P xs
  All-of_mem [] f = tt
  All-of_mem (x ∷ xs) f = (f x mem-cons_self, All-of_mem xs (λ y m. f y (mem-cons_of_mem x m)))

  module _ (prop : (x : A) → IsProp (P x)) where
    pub mem_of_All : (x : A) (xs : List A) → All P xs → Mem x xs → P x
    mem_of_All x [] h m = absurd (not-mem-nil m)
    mem_of_All x (y ∷ ys) h m =
        Or.elim (prop x) (mem-cons.0 m) (λ e. subst P (sym e) h.0) (mem_of_All x ys h.1)

    pub All-perm : {xs ys : List A} → Perm xs ys → All P xs → All P ys
    All-perm {xs} {ys} p h = All-of_mem ys (λ x m. mem_of_All x xs h ((Perm.mem_iff p).1 m))

lengthᴰ-perm {ℓ} : {A : Type ℓ} {xs ys : List A} → Permᴰ xs ys → length xs ≡ length ys
lengthᴰ-perm Permᴰ.nil = refl
lengthᴰ-perm (Permᴰ.cons e p) = omega (arith, lengthᴰ-perm p)
lengthᴰ-perm (Permᴰ.swap d e) = refl
lengthᴰ-perm (Permᴰ.trans p q) = omega (arith, lengthᴰ-perm p, lengthᴰ-perm q)

pub length-perm {ℓ} : {A : Type ℓ} {xs ys : List A} → Perm xs ys → length xs ≡ length ys
length-perm p = ∥∥₁_elim p (ℕ_set _ _) lengthᴰ-perm
