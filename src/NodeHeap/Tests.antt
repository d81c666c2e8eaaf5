-- ===== src/NodeHeap/Tests.antt =====
-- A heap for two nodes that is given three.
use mathlib.Core.List.{map, Perm}
use auth_kademlia.Prelude.{
  ◌≤◌, ◌≡◌, ◌⊎◌, ◌||◌, some, none, List, [], ◌∷◌, replicate, length, All, any,
}
use auth_kademlia.Prelude.Sort.{IsSortedBy}
use auth_kademlia.Node.{Node, from_id, same_id}
use auth_kademlia.NodeHeap.{NodeHeap, HeapEntry, new, push, popleft, contains, to_vec}
use auth_kademlia.NodeHeap.Bound.{IsTrimmed}
use auth_kademlia.NodeHeap.Invariant.{
  IsHeap, pushes, removes, pops, marks, run, run-new-IsHeap, IsKeyed, push-IsTrimmed, push-IsHeap,
  new-IsHeap,
}
use auth_kademlia.NodeHeap.Order.{popleft_closest, to_vec_sorted}

abbrev pivot : Node
pivot = from_id (replicate 20 0)

abbrev node_a : Node
node_a = from_id (1 ∷ replicate 19 0)

abbrev node_b : Node
node_b = from_id (2 ∷ replicate 19 0)

abbrev node_c : Node
node_c = from_id (3 ∷ replicate 19 0)

abbrev two : NodeHeap
two = push (new pivot 2) (node_c ∷ node_a ∷ [])

push-IsTrimmed_example :
    (merged : NodeHeap) × IsKeyed merged
    × (merged.node ≡ two.node)
    × (merged.maxsize ≡ two.maxsize)
    × ((m : Node)
        → contains merged m ≡ (contains two m || any (λ n. same_id n.id m.id) (node_b ∷ [])))
    × IsTrimmed merged (push two (node_b ∷ []))
push-IsTrimmed_example =
    push-IsTrimmed two (node_b ∷ [])
      (push-IsHeap (new pivot 2) (node_c ∷ node_a ∷ []) (new-IsHeap pivot 2)).keyed

run-new-IsHeap_example : IsHeap (
    run (new pivot 2) (
      pushes (node_a ∷ node_b ∷ node_c ∷ []) ∷ marks node_a ∷ removes (node_b.id ∷ []) ∷ pops ∷ []))
run-new-IsHeap_example =
    run-new-IsHeap pivot 2
      (pushes (node_a ∷ node_b ∷ node_c ∷ []) ∷ marks node_a ∷ removes (node_b.id ∷ []) ∷ pops ∷ [])

popleft_closest_example :
    ((two.heap ≡ []) × (popleft two ≡ (two, none)))
    ⊎ ((m : HeapEntry) × Perm two.heap (m ∷ (popleft two).0.heap)
        × ((popleft two).1 ≡ some m.node)
        × All (λ e. m.distance ≤ e.distance) (popleft two).0.heap)
popleft_closest_example = popleft_closest two

two_bounded : length two.heap ≤ two.maxsize
unfolding run
two_bounded = (run-new-IsHeap pivot 2 (pushes (node_c ∷ node_a ∷ []) ∷ [])).bounded

to_vec_sorted_example :
    (es : List HeapEntry) × (to_vec two ≡ map (λ e. e.node) es)
    × Perm es two.heap
    × IsSortedBy (λ e. e.distance) es
to_vec_sorted_example = to_vec_sorted two two_bounded
