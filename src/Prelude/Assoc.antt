-- ===== src/Prelude/Assoc.antt =====
-- Dictionaries (`HashMap`, `DashMap`) as association lists with decidable keys.
use mathlib.Core.List.{List, [], ◌∷◌}
use mathlib.Core.Logic.{ite}
use mathlib.Core.Option.{Option, none, some}
use mathlib.Core.Path.{◌≡◌, refl, subst}
use native.Mathlib.Omega.{arith}
use mathlib.Core.Logic.{◌≢◌}
use mathlib.Core.Bool.{Bool, true, false}
use auth_kademlia.Prelude.{All}

module _ {ℓ} {K V : Type ℓ} where
  -- `retain` on the values.
  unfoldable pub retain_values : (V → Bool) → List (K × V) → List (K × V)
  retain_values p [] = []
  retain_values p ((k, v) ∷ m) =
      let rest = retain_values p m in elim (p v) [ true ↦ (k, v) ∷ rest | false ↦ rest ]

  pub retain_values-All {μ} :
      (P : K × V → Type μ) (p : V → Bool) (m : List (K × V)) → All P m → All P (retain_values p m)
  unfolding retain_values
  retain_values-All P p [] a = tt
  retain_values-All P p ((j, w) ∷ m) a = ground (arith, retain_values-All P p m a.1)

module _ {ℓ} {K V : Type ℓ} (dec : Discrete K) where
  unfoldable pub find : K → List (K × V) → Option V
  find k [] = none
  find k ((j, v) ∷ m) = ite (dec j k) (some v) (find k m)

  unfoldable pub erase : K → List (K × V) → List (K × V)
  erase k [] = []
  erase k ((j, v) ∷ m) = let rest = erase k m in ite (dec j k) rest ((j, v) ∷ rest)

  unfoldable pub put : K → V → List (K × V) → List (K × V)
  unfolding erase
  put k v m = (k, v) ∷ erase k m

  pub find-erase_self : (k : K) (m : List (K × V)) → find k (erase k m) ≡ none
  unfolding find erase
  find-erase_self k [] = refl
  find-erase_self k ((j, v) ∷ m) = ground (arith, find-erase_self k m)

  pub find-erase_ne : (k q : K) (m : List (K × V)) → q ≢ k → find q (erase k m) ≡ find q m
  unfolding find erase
  find-erase_ne k q [] h = refl
  find-erase_ne k q ((j, v) ∷ m) h = ground (arith, find-erase_ne k q m h)

  pub find-put_self : (k : K) (v : V) (m : List (K × V)) → find k (put k v m) ≡ some v
  unfolding find put
  find-put_self k v m = ground arith

  pub find-put_ne : (k q : K) (v : V) (m : List (K × V)) → q ≢ k → find q (put k v m) ≡ find q m
  unfolding find put
  find-put_ne k q v m h = ground (arith, find-erase_ne k q m h)

  pub find-retain_values :
      (p : V → Bool) (k : K) (v : V) (m : List (K × V))
      → find k m ≡ some v
      → p v ≡ true
      → find k (retain_values p m) ≡ some v
  unfolding find retain_values
  find-retain_values p k v [] h t = h
  find-retain_values p k v ((j, w) ∷ m) h t = ground (arith, find-retain_values p k v m)

  pub find-All {μ} :
      (P : V → Type μ) (k : K) (v : V) (m : List (K × V))
      → All (λ e. P e.1) m
      → find k m ≡ some v
      → P v
  unfolding find
  find-All P k v [] a h = absurd (ground arith)
  find-All P k v ((j, w) ∷ m) a h = elim (dec j k) [
    | yes p ↦ let e : w ≡ v = ground arith in subst P e a.0
    | no p ↦ find-All P k v m a.1 (ground arith)
  ]

  pub erase-All {μ} : (P : K × V → Type μ) (k : K) (m : List (K × V)) → All P m → All P (erase k m)
  unfolding erase
  erase-All P k [] a = tt
  erase-All P k ((j, w) ∷ m) a = ground (arith, erase-All P k m a.1)
