-- ===== src/NodeHeap/Order.antt =====
-- `NodeHeap` in the order of distances: `popleft`, `iter` and what a lookup asks of them.
use mathlib.Core.List.{Perm}
use mathlib.Core.List.Perm
use auth_kademlia.Prelude.{
  ℕ, ◌≤◌, ◌≡◌, refl, ◌⊎◌, inl, inr, true, false, Option, none, some, List, [], ◌∷◌, map, length,
  All, All-map, take_of_length-le, arith, Bool-cases,
}
use native.Mathlib.Bridge.{le_prop}
use auth_kademlia.Prelude.Members.{All-perm}
use auth_kademlia.Prelude.Sort.{
  sort_by_key, IsSortedBy, sort_by_key-perm, sort_by_key-IsSortedBy, length-sort_by_key,
}
use auth_kademlia.NodeHeap.{NodeHeap, HeapEntry, precedes, pop, pop_step, popleft, to_vec}

-- `pop` fails on the empty heap only; else it takes an entry with none nearer left.
abbrev pub Pops : List HeapEntry → Option (HeapEntry × List HeapEntry) → Type 0
Pops es none = es ≡ []
Pops es (some (m, rest)) = Perm es (m ∷ rest) × All (λ e. m.distance ≤ e.distance) rest

precedes-le : (a b : HeapEntry) → precedes a b ≡ true → a.distance ≤ b.distance
unfolding precedes
precedes-le a b h = ground arith

not-precedes-le : (a b : HeapEntry) → precedes a b ≡ false → b.distance ≤ a.distance
unfolding precedes
not-precedes-le a b h = ground arith

pop_step-Pops :
    (e : HeapEntry) (es : List HeapEntry) (o : Option (HeapEntry × List HeapEntry))
    → Pops es o
    → Pops (e ∷ es) (pop_step e es o)
unfolding pop_step
pop_step-Pops e es none h = rw h (Perm.refl _, tt)
pop_step-Pops e es (some (m, rest)) h = elim (Bool-cases (precedes m e)) [
  | inl first ↦
      rw first (Perm.trans (Perm.cons e h.0) (Perm.swap m e rest), (precedes-le m e first, h.1))
  | inr later ↦
      let le : e.distance ≤ m.distance = not-precedes-le m e later in
      rw later (
        Perm.refl _,
        All-perm (λ x. e.distance ≤ x.distance) (λ x. le_prop) (Perm.symm h.0)
            (le, All-map _ _ (λ x k. omega arith) rest h.1),
      )
]

pub pop-Pops : (es : List HeapEntry) → Pops es (pop es)
unfolding pop
pop-Pops [] = refl
pop-Pops (e ∷ es) = pop_step-Pops e es (pop es) (pop-Pops es)

-- `popleft` gives the closest node: it fails, without a change, on the empty heap only, and
-- otherwise takes out one entry, with the others left and none of them nearer.
pub popleft_closest :
    (h : NodeHeap)
    → ((h.heap ≡ []) × (popleft h ≡ (h, none)))
      ⊎ ((m : HeapEntry) × Perm h.heap (m ∷ (popleft h).0.heap)
          × ((popleft h).1 ≡ some m.node)
          × All (λ e. m.distance ≤ e.distance) (popleft h).0.heap)
unfolding popleft
popleft_closest h = cases (pop h.heap) refl (pop-Pops h.heap)
  where
    cases :
        (o : Option (HeapEntry × List HeapEntry))
        → pop h.heap ≡ o
        → Pops h.heap o
        → ((h.heap ≡ []) × (popleft h ≡ (h, none)))
          ⊎ ((m : HeapEntry) × Perm h.heap (m ∷ (popleft h).0.heap)
              × ((popleft h).1 ≡ some m.node)
              × All (λ e. m.distance ≤ e.distance) (popleft h).0.heap)
    cases none e p = inl (p, rw (e, popleft))
    cases (some (m, rest)) e p = inr (m, rw (e, popleft) p.0, rw (e, popleft), rw (e, popleft) p.1)

pub popleft-fields :
    (h : NodeHeap) → ((popleft h).0.node ≡ h.node) × ((popleft h).0.maxsize ≡ h.maxsize)
unfolding popleft
popleft-fields h = ground arith

-- `to_vec` lists the nodes of a heap within its bound, each once, in ascending distance.
pub to_vec_sorted :
    (h : NodeHeap)
    → length h.heap ≤ h.maxsize
    → (es : List HeapEntry) × (to_vec h ≡ map (λ e. e.node) es)
      × Perm es h.heap
      × IsSortedBy (λ e. e.distance) es
unfolding to_vec
to_vec_sorted h bounded = (
  sort_by_key distance h.heap,
  rw
      (take_of_length-le h.maxsize (sort_by_key distance h.heap)
        (omega (arith, length-sort_by_key distance h.heap)))
      refl,
  sort_by_key-perm distance h.heap,
  sort_by_key-IsSortedBy distance h.heap,
)
  where
    distance : HeapEntry → ℕ
    distance e = e.distance
