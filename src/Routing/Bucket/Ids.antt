-- ===== src/Routing/Bucket/Ids.antt =====
-- The identifiers of a list of nodes, and what the list operations of a bucket do to them.
use mathlib.Core.List.{
  map, Perm, Mem, Sublist, perm_middle, not-mem-nil, eq-or-mem_of_mem-cons, append-nil, nil-sublist,
}
use mathlib.Core.List.Perm
use mathlib.Core.List.Sublist
use mathlib.Core.HLevel.{⊥_prop}
use mathlib.Core.Logic.Or
use auth_kademlia.Prelude.{
  ℕ, suc, ◌≤◌, ◌≡◌, refl, ap, inl, inr, true, false, Option, none, some, List, [], ◌∷◌, ◌++◌,
  length, position, remove_at, All, arith, ltb, Bool-cases, position_split, position_absent,
  length-append,
}
use auth_kademlia.Prelude.Bytes.{Bytes}
use auth_kademlia.Node.{Node, same_id}
use auth_kademlia.Routing.Bucket.{has_id, pop_front_while, pop_back, pop_back_step}

abbrev pub ids : List Node → List Bytes
ids = map (λ n. n.id)

same_id-eq : (a b : Bytes) → same_id a b ≡ true → a ≡ b
same_id-eq a b h = ground arith

absent_ids :
    (node : Node) (ns : List Node) → All (λ n. has_id node n ≡ false) ns → ¬ Mem node.id (ids ns)
absent_ids node [] h = not-mem-nil
absent_ids node (n ∷ ns) h = λ m.
    Or.elim ⊥_prop (eq-or-mem_of_mem-cons m) (λ here. ground (arith, h.0)) (absent_ids node ns h.1)

pub position-none-ids :
    (node : Node) (ns : List Node) → position (has_id node) ns ≡ none → ¬ Mem node.id (ids ns)
position-none-ids node ns h = absent_ids node ns (position_absent (has_id node) ns h)

split_ids :
    (node x : Node) (ns rest before after : List Node)
    → x.id ≡ node.id
    → ns ≡ before ++ (x ∷ after)
    → rest ≡ before ++ after
    → Perm (ids ns) (node.id ∷ ids rest) × (length ns ≡ suc (length rest))
split_ids node x ns rest before after e whole left =
    rw (whole, left, ← e)
      (
        Perm.map (λ n. n.id) (perm_middle {a = x} before after),
        omega (arith, length-append before (x ∷ after), length-append before after),
      )

-- The node that `position` finds goes, and the others stay.
pub position-some-ids :
    (node : Node) (ns : List Node) {i : ℕ}
    → position (has_id node) ns ≡ some i
    → Perm (ids ns) (node.id ∷ ids (remove_at ns i)) × (length ns ≡ suc (length (remove_at ns i)))
position-some-ids node ns {i} h =
    let (before, x, after, whole, _, hit, _, rest) = position_split (has_id node) ns h in
    split_ids node x ns (remove_at ns i) before after (same_id-eq x.id node.id hit) whole rest

pub snoc-perm {ℓ} : {A : Type ℓ} (xs : List A) (x : A) → Perm (xs ++ x ∷ []) (x ∷ xs)
snoc-perm xs x = rw append-nil at (perm_middle {a = x} xs [])

-- A node at the end of the first of two lists, to the front.
pub ids-snoc_left :
    (xs ys : List Node) (n : Node) → Perm (ids (xs ++ n ∷ []) ++ ids ys) (n.id ∷ (ids xs ++ ids ys))
ids-snoc_left xs ys n = Perm.append_right (ids ys) (Perm.map (λ n. n.id) (snoc-perm xs n))

-- The same for the second list.
pub ids-snoc_right :
    (xs ys : List Node) (n : Node) → Perm (ids xs ++ ids (ys ++ n ∷ [])) (n.id ∷ (ids xs ++ ids ys))
ids-snoc_right xs ys n =
    Perm.trans (Perm.append_left (ids xs) (Perm.map (λ n. n.id) (snoc-perm ys n)))
      (perm_middle {a = n.id} (ids xs) (ids ys))

-- `pop_front` until the bound holds keeps the newest.
pub pop_front_while-sublist :
    (max : ℕ) (ns : List Node) → Sublist (ids (pop_front_while max ns)) (ids ns)
unfolding pop_front_while
pop_front_while-sublist max [] = nil-sublist _
pop_front_while-sublist max (n ∷ ns) = elim (Bool-cases (ltb max (length (n ∷ ns)))) [
  | inl over ↦ rw (over, pop_front_while) (Sublist.cons n.id (pop_front_while-sublist max ns))
  | inr fits ↦ rw (fits, pop_front_while) (Sublist.refl _)
]

pub pop_front_while-le : (max : ℕ) (ns : List Node) → length (pop_front_while max ns) ≤ max
unfolding pop_front_while
pop_front_while-le max [] = omega arith
pop_front_while-le max (n ∷ ns) = ground (arith, pop_front_while-le max ns)

pub pop_front_while-All {κ} :
    (P : Node → Type κ) (max : ℕ) (ns : List Node) → All P ns → All P (pop_front_while max ns)
unfolding pop_front_while
pop_front_while-All P max [] h = tt
pop_front_while-All P max (n ∷ ns) h = elim (Bool-cases (ltb max (length (n ∷ ns)))) [
  | inl over ↦ rw (over, pop_front_while) (pop_front_while-All P max ns h.1)
  | inr fits ↦ rw (fits, pop_front_while) h
]

-- `pop_back` fails on the empty list only, and else splits off the last node.
abbrev pub PopsBack : List Node → Option (List Node × Node) → Type 0
PopsBack ns none = ns ≡ []
PopsBack ns (some (front, last)) = ns ≡ front ++ last ∷ []

pop_back-cons :
    (n : Node) (ns : List Node) (o : Option (List Node × Node))
    → PopsBack ns o
    → PopsBack (n ∷ ns) (pop_back_step n o)
unfolding pop_back_step
pop_back-cons n ns none h = ap (◌∷◌ n) h
pop_back-cons n ns (some (front, last)) h = ap (◌∷◌ n) h

pub pop_back-PopsBack : (ns : List Node) → PopsBack ns (pop_back ns)
unfolding pop_back
pop_back-PopsBack [] = refl
pop_back-PopsBack (n ∷ ns) = pop_back-cons n ns (pop_back ns) (pop_back-PopsBack ns)
