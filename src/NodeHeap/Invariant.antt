-- ===== src/NodeHeap/Invariant.antt =====
-- The invariant of `NodeHeap`: every operation of a lookup keeps it.
use mathlib.Core.List.{Nodup, Mem, Nodup-nil, Nodup-cons, not-mem-nil, eq-or-mem_of_mem-cons}
use mathlib.Core.List.Nodup
use mathlib.Core.List.Perm
use native.Mathlib.Nat.{ℕ_set}
use mathlib.Core.HLevel.{⊥_prop}
use mathlib.Core.Logic.Or
use auth_kademlia.Prelude.{
  ℕ, ◌≤◌, ◌≡◌, refl, inl, inr, false, ◌||◌, ◌∙◌, not, List, [], ◌∷◌, map, length, All, arith,
  Bool-cases, leb, any, map-take-sublist, map-retain-sublist, All-take, All-retain,
  length-retain-le,
}
use auth_kademlia.Prelude.Bytes.{Bytes}
use auth_kademlia.Prelude.Sort.{sort_by_key-perm, sort_by_key-All}
use auth_kademlia.Node.{Node, same_id, distance_to}
use auth_kademlia.NodeHeap.{
  NodeHeap, HeapEntry, entry_id, is_contacted, new, contains, push, push_loop, push_new,
  enforce_maxsize, remove, popleft, mark_contacted,
}
use auth_kademlia.NodeHeap.Bound.{
  IsTrimmed, enforce_maxsize-IsTrimmed, enforce_maxsize-maxsize, push_loop-maxsize,
  contains-push_loop,
}
use auth_kademlia.NodeHeap.Order.{popleft_closest, popleft-fields}
use auth_kademlia.Prelude.Members.{length-perm, All-perm}

-- No identifier stands twice, and each entry carries its distance to the pivot.
pub record IsKeyed (h : NodeHeap) : Type 0 where
  pub distinct : Nodup (map entry_id h.heap)
  pub measured : All (λ e. e.distance ≡ distance_to h.node e.node) h.heap

pub record IsHeap (h : NodeHeap) : Type 0 where
  pub keyed : IsKeyed h
  pub bounded : length h.heap ≤ h.maxsize

any-false_fresh :
    (id : Bytes) (es : List HeapEntry)
    → any (λ e. same_id e.node.id id) es ≡ false
    → ¬ Mem id (map entry_id es)
unfolding any
any-false_fresh id [] h = not-mem-nil
any-false_fresh id (e ∷ es) h = λ m.
    Or.elim ⊥_prop (eq-or-mem_of_mem-cons m) (λ here. ground arith)
      (any-false_fresh id es (ground arith))

push_new-IsKeyed : (h : NodeHeap) (n : Node) → IsKeyed h → IsKeyed (push_new h n)
unfolding push_new
push_new-IsKeyed h n v = elim (Bool-cases (contains h n)) [
  | inl old ↦ rw old v
  | inr fresh ↦ rw fresh (record {
    distinct = Nodup-cons.1 (any-false_fresh n.id h.heap fresh, v.distinct);
    measured = (refl, v.measured);
  })
]

push_loop-IsKeyed : (h : NodeHeap) (ns : List Node) → IsKeyed h → IsKeyed (push_loop h ns)
unfolding push_loop
push_loop-IsKeyed h [] v = v
push_loop-IsKeyed h (n ∷ ns) v = push_loop-IsKeyed (push_new h n) ns (push_new-IsKeyed h n v)

enforce_maxsize-IsKeyed : (h : NodeHeap) → IsKeyed h → IsKeyed (enforce_maxsize h)
unfolding enforce_maxsize
enforce_maxsize-IsKeyed h v = elim (Bool-cases (leb (length h.heap) h.maxsize)) [
  | inl fits ↦ rw fits v
  | inr over ↦ rw over (record {
    distinct =
        Nodup.sublist (map-take-sublist entry_id h.maxsize _)
          (Perm.nodup (Perm.symm (Perm.map entry_id (sort_by_key-perm _ h.heap))) v.distinct);
    measured = All-take _ h.maxsize _ (sort_by_key-All _ _ h.heap v.measured);
  })
]

pub push-IsHeap : (h : NodeHeap) (ns : List Node) → IsHeap h → IsHeap (push h ns)
unfolding push
push-IsHeap h ns v = record {
  keyed = enforce_maxsize-IsKeyed _ (push_loop-IsKeyed h ns v.keyed);
  bounded = omega (
    arith,
    (enforce_maxsize-IsTrimmed (push_loop h ns)).bounded,
    enforce_maxsize-maxsize (push_loop h ns),
  );
}

push_new-node : (h : NodeHeap) (n : Node) → (push_new h n).node ≡ h.node
unfolding push_new
push_new-node h n = ground arith

push_loop-node : (h : NodeHeap) (ns : List Node) → (push_loop h ns).node ≡ h.node
unfolding push_loop
push_loop-node h [] = refl
push_loop-node h (n ∷ ns) = push_loop-node (push_new h n) ns ∙ push_new-node h n

-- For a heap without duplicates in which each entry carries its distance to the pivot, `push` trims a
-- heap of this kind that holds the old entries and the nodes of the batch: at most `maxsize` stay,
-- none of those that go is nearer than one that stays, and none goes without need.
pub push-IsTrimmed :
    (h : NodeHeap) (ns : List Node)
    → IsKeyed h
    → (merged : NodeHeap) × IsKeyed merged
      × (merged.node ≡ h.node)
      × (merged.maxsize ≡ h.maxsize)
      × ((m : Node) → contains merged m ≡ (contains h m || any (λ n. same_id n.id m.id) ns))
      × IsTrimmed merged (push h ns)
unfolding push
push-IsTrimmed h ns v = (
  push_loop h ns,
  push_loop-IsKeyed h ns v,
  push_loop-node h ns,
  push_loop-maxsize h ns,
  contains-push_loop h ns,
  enforce_maxsize-IsTrimmed (push_loop h ns),
)

pub new-IsHeap : (n : Node) (size : ℕ) → IsHeap (new n size)
unfolding new
new-IsHeap n size = record {
  keyed = record { distinct = Nodup-nil; measured = tt };
  bounded = omega arith;
}

pub remove-IsHeap : (h : NodeHeap) (peers : List Bytes) → IsHeap h → IsHeap (remove h peers)
unfolding remove
remove-IsHeap h [] v = v
remove-IsHeap h (p ∷ ps) v = record {
  keyed = record {
    distinct = Nodup.sublist (map-retain-sublist entry_id _ h.heap) v.keyed.distinct;
    measured = All-retain _ _ h.heap v.keyed.measured;
  };
  bounded = omega (
    arith,
    length-retain-le {0} (λ e. not (any (λ id. same_id id e.node.id) (p ∷ ps))) h.heap,
    v.bounded,
  );
}

popleft-IsHeap : (h : NodeHeap) → IsHeap h → IsHeap (popleft h).0
popleft-IsHeap h v = elim (popleft_closest h) [
  | inl (_, same) ↦ rw same v
  | inr (m, split, _, _) ↦ record {
    keyed = record {
      distinct = (Nodup-cons.0 (Perm.nodup (Perm.map entry_id split) v.keyed.distinct)).1;
      measured = rw (popleft-fields h).0 (All-perm _ (λ e. ℕ_set _ _) split v.keyed.measured).1;
    };
    bounded = omega (arith, length-perm split, popleft-fields h);
  }
]

pub mark_contacted-IsHeap : (h : NodeHeap) (n : Node) → IsHeap h → IsHeap (mark_contacted h n)
unfolding mark_contacted
mark_contacted-IsHeap h n v = elim (Bool-cases (is_contacted h n)) [
  | inl old ↦ rw old v
  | inr fresh ↦ rw fresh (record {
    keyed = record { distinct = v.keyed.distinct; measured = v.keyed.measured };
    bounded = v.bounded;
  })
]

-- The calls that a lookup makes of its heap.
pub data Call : Type 0 where
  pushes : List Node → Call
  removes : List Bytes → Call
  pops : Call
  marks : Node → Call

unfoldable pub run : NodeHeap → List Call → NodeHeap
run h [] = h
run h (pushes ns ∷ cs) = run (push h ns) cs
run h (removes ids ∷ cs) = run (remove h ids) cs
run h (pops ∷ cs) = run (popleft h).0 cs
run h (marks n ∷ cs) = run (mark_contacted h n) cs

run-IsHeap : (h : NodeHeap) (cs : List Call) → IsHeap h → IsHeap (run h cs)
unfolding run
run-IsHeap h [] v = v
run-IsHeap h (pushes ns ∷ cs) v = run-IsHeap (push h ns) cs (push-IsHeap h ns v)
run-IsHeap h (removes ids ∷ cs) v = run-IsHeap (remove h ids) cs (remove-IsHeap h ids v)
run-IsHeap h (pops ∷ cs) v = run-IsHeap (popleft h).0 cs (popleft-IsHeap h v)
run-IsHeap h (marks n ∷ cs) v = run-IsHeap (mark_contacted h n) cs (mark_contacted-IsHeap h n v)

-- After any sequence of calls on a new heap no identifier stands twice in it, each entry carries its
-- distance to the pivot, and it holds at most `maxsize` entries.
pub run-new-IsHeap : (n : Node) (size : ℕ) (cs : List Call) → IsHeap (run (new n size) cs)
run-new-IsHeap n size cs = run-IsHeap (new n size) cs (new-IsHeap n size)
