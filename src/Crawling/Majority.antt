-- ===== src/Crawling/Majority.antt =====
-- The value that a lookup answers with when peers disagree: `majority` of src/crawling.rs.
use mathlib.Core.List.{Perm}
use mathlib.Core.List.Perm
use mathlib.Core.Option
use native.Mathlib.Bridge.{le_prop}
use native.Mathlib.Nat.{ℕ_set}
use auth_kademlia.Prelude.{
  ℕ, suc, ◌+◌, ◌≤◌, ◌<◌, ◌≡◌, ◌≢◌, refl, sym, ap, subst, ◌∙◌, inl, inr, Option, some, List, [], ◌∷◌,
  All, arith, leb, Bool-cases, All-map, Option-cases, if◌then◌else◌,
}
use auth_kademlia.Prelude.Assoc
use auth_kademlia.Prelude.Bytes.{Bytes, bytes_eq}
use auth_kademlia.Prelude.Members.{All-perm, length-perm}
use auth_kademlia.Node.{Node, same_id}
use auth_kademlia.Crawling.{RawResponse, Answers, tally, max_by_count, majority}

-- How often `w` is among the values.
unfoldable pub occurrences : Bytes → List Bytes → ℕ
occurrences w [] = 0
occurrences w (v ∷ vs) = let rest = occurrences w vs in if same_id v w then suc rest else rest

abbrev pub Counts : Type 0
Counts = List (Bytes × ℕ)

-- The count of `w`, 0 without an entry.
unfoldable count : Bytes → Counts → ℕ
count w counts = Option.get_or (Assoc.find bytes_eq w counts) 0

-- Entries that agree with what the keys read as.
record IsCounting (f : Bytes → ℕ) (counts : Counts) : Type 0 where
  reads : (w : Bytes) → count w counts ≡ f w
  entries : All (λ (e : Bytes × ℕ). e.1 ≡ f e.0) counts

count_nil : (w : Bytes) → count w [] ≡ 0
unfolding count Assoc.find
count_nil w = refl

unfoldable bump : (Bytes → ℕ) → Bytes → Bytes → ℕ
bump f v w = if same_id v w then suc (f w) else f w

bump_self : (f : Bytes → ℕ) (v : Bytes) → bump f v v ≡ suc (f v)
unfolding bump
bump_self f v = ground arith

bump_ne : (f : Bytes → ℕ) (v w : Bytes) → v ≢ w → bump f v w ≡ f w
unfolding bump
bump_ne f v w h = ground arith

erase-ne :
    (v : Bytes) (counts : Counts) → All (λ (e : Bytes × ℕ). v ≢ e.0) (Assoc.erase bytes_eq v counts)
unfolding Assoc.erase
erase-ne v [] = tt
erase-ne v ((j, n) ∷ counts) = ground (arith, erase-ne v counts)

module _ (f : Bytes → ℕ) (v : Bytes) where
  bump_entries :
      (counts : Counts)
      → All (λ (e : Bytes × ℕ). e.1 ≡ f e.0) counts
      → All (λ (e : Bytes × ℕ). v ≢ e.0) counts
      → All (λ (e : Bytes × ℕ). e.1 ≡ bump f v e.0) counts
  bump_entries [] a b = tt
  bump_entries (e ∷ es) a b = (a.0 ∙ sym (bump_ne f v e.0 b.0), bump_entries es a.1 b.1)

  put-IsCounting :
      (counts : Counts)
      → IsCounting f counts
      → IsCounting (bump f v) (Assoc.put bytes_eq v (count v counts + 1) counts)
  unfolding count Assoc.put
  put-IsCounting counts c = record {
    reads = λ w. elim (bytes_eq v w) [
      | yes same ↦
          subst
            (λ u.
              Option.get_or
                (Assoc.find bytes_eq u (Assoc.put bytes_eq v (count v counts + 1) counts)) 0
              ≡ bump f v u)
            same
            (rw
              (Assoc.find-put_self bytes_eq v (count v counts + 1) counts, bump_self f v, c.reads v)
              omega arith)
      | no differs ↦
          rw
            (
              Assoc.find-put_ne bytes_eq v w (count v counts + 1) counts (λ e. differs (sym e)),
              bump_ne f v w differs,
            )
            (c.reads w)
    ];
    entries = (
      omega (arith, c.reads v, bump_self f v),
      bump_entries (Assoc.erase bytes_eq v counts) (Assoc.erase-All bytes_eq _ v counts c.entries)
          (erase-ne v counts),
    );
  }

tally-IsCounting :
    (f g : Bytes → ℕ) (counts : Counts) (vs : List Bytes)
    → IsCounting f counts
    → ((w : Bytes) → f w + occurrences w vs ≡ g w)
    → IsCounting g (tally counts vs)
unfolding tally occurrences count
tally-IsCounting f g counts [] c sums = record {
  reads = λ w. omega (arith, c.reads w, sums w);
  entries = All-map _ _ (λ e h. omega (arith, h, sums e.0)) counts c.entries;
}
tally-IsCounting f g counts (v ∷ vs) c sums =
    tally-IsCounting (bump f v) g _ vs (put-IsCounting f v counts c)
      (λ w. unfold bump in ground (arith, sums w))

-- `max_by_count` finds an entry with the greatest count.
record IsGreatest (f : Bytes → ℕ) (es : Counts) (o : Option (Bytes × ℕ)) : Type 0 where
  best : Bytes × ℕ
  result : o ≡ some best
  counted : best.1 ≡ f best.0
  greatest : All (λ (e : Bytes × ℕ). e.1 ≤ best.1) es

module _ (f : Bytes → ℕ) where
  max_by_count-IsGreatest :
      (e : Bytes × ℕ) (es : Counts)
      → All (λ (d : Bytes × ℕ). d.1 ≡ f d.0) (e ∷ es)
      → IsGreatest f (e ∷ es) (max_by_count (e ∷ es))
  unfolding max_by_count
  max_by_count-IsGreatest e [] h = record {
    best = e;
    result = refl;
    counted = h.0;
    greatest = (omega arith, tt);
  }
  max_by_count-IsGreatest e (d ∷ es) h =
      let later = max_by_count-IsGreatest d es h.1 in
      elim (Bool-cases (leb e.1 later.best.1)) [
        | inl below ↦ record {
          best = later.best;
          result = rw (later.result, below) refl;
          counted = later.counted;
          greatest = (ground arith, later.greatest);
        }
        | inr above ↦ record {
          best = e;
          result = rw (later.result, above) refl;
          counted = h.0;
          greatest = (omega arith, All-map _ _ (λ x h. ground arith) (d ∷ es) later.greatest);
        }
      ]

  -- Also where the entries are read in another order.
  max_of_perm :
      (v : Bytes) (counts es : Counts)
      → IsCounting f counts
      → 0 < f v
      → Perm counts es
      → IsGreatest f counts (max_by_count es)
  max_of_perm v [] [] c occurs p = absurd (omega (arith, c.reads v, count_nil v))
  max_of_perm v (d ∷ ds) [] c occurs p = absurd (omega (arith, length-perm p))
  max_of_perm v counts (e ∷ es) c occurs p =
      let found = max_by_count-IsGreatest e es (All-perm _ (λ d. ℕ_set d.1 (f d.0)) p c.entries) in
      record {
        best = found.best;
        result = found.result;
        counted = found.counted;
        greatest = All-perm _ (λ d. le_prop) (Perm.symm p) found.greatest;
      }

  -- No value is counted more often than the greatest entry.
  count-le :
      (counts : Counts) (n : ℕ) (w : Bytes)
      → IsCounting f counts
      → All (λ (e : Bytes × ℕ). e.1 ≤ n) counts
      → f w ≤ n
  unfolding count
  count-le counts n w c below = elim (Option-cases (Assoc.find bytes_eq w counts)) [
    | inl absent ↦ omega (arith, c.reads w, ap (λ o. Option.get_or o 0) absent)
    | inr (k, found) ↦ omega (
      arith,
      c.reads w,
      ap (λ o. Option.get_or o 0) found,
      Assoc.find-All bytes_eq (λ m. m ≤ n) w k counts below found,
    )
  ]

-- A value that no other exceeds in number, and that is there.
pub record IsMajority (vs : List Bytes) (o : Option Bytes) : Type 0 where
  pub value : Bytes
  pub result : o ≡ some value
  pub occurs : 0 < occurrences value vs
  pub most : (w : Bytes) → occurrences w vs ≤ occurrences value vs

first-occurs : (v : Bytes) (vs : List Bytes) → 0 < occurrences v (v ∷ vs)
unfolding occurrences
first-occurs v vs = ground arith

module _ (respond : Node → RawResponse) (order : Answers → Answers) (order_counts : Counts → Counts)
    (ordered : (es : Counts) → Perm es (order_counts es)) where
  -- In whatever order the counted values are read, `majority` of some values is one of them that no
  -- other exceeds in number.
  pub majority-IsMajority :
      (v : Bytes) (vs : List Bytes)
      → IsMajority (v ∷ vs) (majority respond order order_counts (v ∷ vs))
  unfolding majority
  majority-IsMajority v vs =
      let f : Bytes → ℕ = λ w. occurrences w (v ∷ vs) in
      let c : IsCounting f (tally [] (v ∷ vs)) =
        tally-IsCounting (λ w. 0) f [] (v ∷ vs) (record { reads = count_nil; entries = tt })
          (λ w. omega arith) in
      let m = max_of_perm f v _ _ c (first-occurs v vs) (ordered (tally [] (v ∷ vs))) in
      let most : (w : Bytes) → f w ≤ f m.best.0 =
        λ w. omega (arith, count-le f _ m.best.1 w c m.greatest, m.counted) in
      record {
        value = m.best.0;
        result = rw m.result refl;
        occurs = omega (arith, most v, first-occurs v vs);
        most = most;
      }
