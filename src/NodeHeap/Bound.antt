-- ===== src/NodeHeap/Bound.antt =====
-- `NodeHeap::push`: how many nodes stay, and which.
use mathlib.Core.List.{Perm, append-nil}
use mathlib.Core.List.Perm
use auth_kademlia.Prelude.{
  ℕ, ◌≤◌, ◌≡◌, refl, ◌⊎◌, inl, inr, List, [], ◌∷◌, ◌++◌, length, drop, All, any, ◌||◌, arith,
  Bool-cases, leb, take-append-drop, length-take, All-intro, ◌∙◌,
}
use auth_kademlia.Prelude.Sort.{
  sort_by_key, sort_by_key-perm, sort_by_key-IsSortedBy, IsSortedBy-split, length-sort_by_key,
}
use auth_kademlia.Prelude.Bytes.{Bytes}
use auth_kademlia.Node.{Node, same_id}
use auth_kademlia.NodeHeap.{NodeHeap, HeapEntry, contains, push_loop, push_new, enforce_maxsize}

pub push_new-maxsize : (h : NodeHeap) (n : Node) → (push_new h n).maxsize ≡ h.maxsize
unfolding push_new
push_new-maxsize h n = ground arith

pub push_loop-maxsize : (h : NodeHeap) (ns : List Node) → (push_loop h ns).maxsize ≡ h.maxsize
unfolding push_loop
push_loop-maxsize h [] = refl
push_loop-maxsize h (n ∷ ns) = push_loop-maxsize (push_new h n) ns ∙ push_new-maxsize h n

pub enforce_maxsize-maxsize : (h : NodeHeap) → (enforce_maxsize h).maxsize ≡ h.maxsize
unfolding enforce_maxsize
enforce_maxsize-maxsize h = ground arith

any_congr :
    (a b : Bytes) (es : List HeapEntry)
    → a ≡ b
    → any (λ e. same_id e.node.id a) es ≡ any (λ e. same_id e.node.id b) es
any_congr a b es e = rw e

contains-push_new :
    (h : NodeHeap) (n m : Node) → contains (push_new h n) m ≡ (contains h m || same_id n.id m.id)
unfolding push_new any
contains-push_new h n m = ground (arith, any_congr n.id m.id h.heap)

-- A node is in the heap after the loop of `push` exactly when it was there or is in the batch.
pub contains-push_loop :
    (h : NodeHeap) (ns : List Node) (m : Node)
    → contains (push_loop h ns) m ≡ (contains h m || any (λ n. same_id n.id m.id) ns)
unfolding push_loop any
contains-push_loop h [] m = ground arith
contains-push_loop h (n ∷ ns) m =
    ground (arith, contains-push_loop (push_new h n) ns m, contains-push_new h n m)

-- Trimming keeps at most `maxsize` entries. It splits the heap in those kept and those dropped, drops
-- nothing unless the heap is full, and drops no entry that is nearer than a kept one.
pub record IsTrimmed (before after : NodeHeap) : Type 0 where
  pub lost : List HeapEntry
  pub bounded : length after.heap ≤ before.maxsize
  pub whole : Perm before.heap (after.heap ++ lost)
  pub full : (lost ≡ []) ⊎ (length after.heap ≡ before.maxsize)
  pub nearest : All (λ a. All (λ b. a.distance ≤ b.distance) lost) after.heap

pub enforce_maxsize-IsTrimmed : (h : NodeHeap) → IsTrimmed h (enforce_maxsize h)
unfolding enforce_maxsize
enforce_maxsize-IsTrimmed h = elim (Bool-cases (leb (length h.heap) h.maxsize)) [
  | inl fits ↦ rw fits (record {
    lost = [];
    bounded = ground arith;
    whole = rw append-nil (Perm.refl h.heap);
    full = inl refl;
    nearest = All-intro _ (λ e. tt) h.heap;
  })
  | inr over ↦ rw over (record {
    lost = drop h.maxsize sorted;
    bounded = omega (arith, length-take h.maxsize sorted);
    whole = rw (take-append-drop h.maxsize sorted) (Perm.symm (sort_by_key-perm distance h.heap));
    full = inr (ground (arith, length-take h.maxsize sorted, length-sort_by_key distance h.heap));
    nearest = IsSortedBy-split distance h.maxsize sorted (sort_by_key-IsSortedBy distance h.heap);
  })
]
  where
    distance : HeapEntry → ℕ
    distance e = e.distance

    sorted : List HeapEntry
    sorted = sort_by_key distance h.heap
