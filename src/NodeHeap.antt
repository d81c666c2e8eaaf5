-- ===== src/NodeHeap.antt =====
-- src/node.rs: `NodeHeap`, the bounded set of nodes nearest to a pivot that a lookup keeps.
-- The `BinaryHeap` is a list in no order that matters: `pop` takes its greatest entry by `Ord`, and
-- `iter` sorts. The `HashSet` of contacted identifiers is a list.
pub mod Bound
pub mod Invariant
pub mod Order
mod Tests
use auth_kademlia.Prelude.{
  ℕ, min, Bool, true, false, ◌&&◌, ◌||◌, not, Option, none, some, List, [], ◌∷◌, map, length, take,
  any, retain, ltb, leb, ◌==◌, if◌then◌else◌,
}
use mathlib.Core.Option
use auth_kademlia.Prelude.Bytes.{Bytes}
use auth_kademlia.Prelude.Sort.{sort_by_key}
use auth_kademlia.Node.{Node, same_id, distance_to}

pub record HeapEntry : Type 0 where
  pub distance : ℕ
  pub node : Node

pub record NodeHeap : Type 0 where
  pub node : Node
  pub heap : List HeapEntry
  pub contacted : List Bytes
  pub maxsize : ℕ

abbrev pub entry_id : HeapEntry → Bytes
entry_id e = e.node.id

unfoldable pub new : Node → ℕ → NodeHeap
new node maxsize = record { node = node; heap = []; contacted = []; maxsize = maxsize }

unfoldable pub contains : NodeHeap → Node → Bool
contains h node = any (λ e. same_id e.node.id node.id) h.heap

unfoldable pub push_new : NodeHeap → Node → NodeHeap
unfolding contains
push_new h node =
    if contains h node
    then h
    else record h { heap = record { distance = distance_to h.node node; node = node } ∷ h.heap }

unfoldable pub push_loop : NodeHeap → List Node → NodeHeap
unfolding push_new
push_loop h [] = h
push_loop h (n ∷ ns) = push_loop (push_new h n) ns

unfoldable pub enforce_maxsize : NodeHeap → NodeHeap
enforce_maxsize h =
    if leb (length h.heap) h.maxsize
    then h
    else record h { heap = take h.maxsize (sort_by_key (λ e. e.distance) h.heap) }

unfoldable pub push : NodeHeap → List Node → NodeHeap
unfolding push_loop enforce_maxsize
push h nodes = enforce_maxsize (push_loop h nodes)

unfoldable pub push_one : NodeHeap → Node → NodeHeap
unfolding push
push_one h node = push h (node ∷ [])

unfoldable pub remove : NodeHeap → List Bytes → NodeHeap
remove h [] = h
remove h (p ∷ ps) = record h {
  heap = retain (λ e. not (any (λ id. same_id id e.node.id) (p ∷ ps))) h.heap;
}

-- `Ord for [u8; N]`: the order of the first bytes that differ.
unfoldable pub id_lt : Bytes → Bytes → Bool
id_lt [] bs = false
id_lt (a ∷ r) [] = false
id_lt (a ∷ r) (b ∷ s) = ltb a b || (a == b && id_lt r s)

-- `Ord for HeapEntry`, the greater entry first: the smaller distance, then the smaller identifier.
unfoldable pub precedes : HeapEntry → HeapEntry → Bool
unfolding id_lt
precedes a b = ltb a.distance b.distance || (a.distance == b.distance && id_lt a.node.id b.node.id)

unfoldable pub pop_step :
    HeapEntry
    → List HeapEntry
    → Option (HeapEntry × List HeapEntry)
    → Option (HeapEntry × List HeapEntry)
unfolding precedes
pop_step e es none = some (e, [])
pop_step e es (some (m, rest)) = if precedes m e then some (m, e ∷ rest) else some (e, es)

-- `BinaryHeap::pop`.
unfoldable pub pop : List HeapEntry → Option (HeapEntry × List HeapEntry)
unfolding pop_step
pop [] = none
pop (e ∷ es) = pop_step e es (pop es)

unfoldable pub popleft : NodeHeap → NodeHeap × Option Node
unfolding pop
popleft h = elim (pop h.heap) [
  | none ↦ (h, none)
  | some (m, rest) ↦ (record h { heap = rest }, some m.node)
]

unfoldable pub find_entry : Bytes → List HeapEntry → Option HeapEntry
find_entry id [] = none
find_entry id (e ∷ es) = if same_id e.node.id id then some e else find_entry id es

unfoldable pub get_node : NodeHeap → Bytes → Option Node
unfolding find_entry
get_node h node_id = Option.map (λ e. e.node) (find_entry node_id h.heap)

unfoldable pub iter : NodeHeap → List Node
iter h = map (λ e. e.node) (take h.maxsize (sort_by_key (λ e. e.distance) h.heap))

unfoldable pub get_ids : NodeHeap → List Bytes
unfolding iter
get_ids h = map (λ n. n.id) (iter h)

unfoldable pub len : NodeHeap → ℕ
len h = min (length h.heap) h.maxsize

abbrev pub is_contacted : NodeHeap → Node → Bool
is_contacted h n = any (λ id. same_id id n.id) h.contacted

unfoldable pub mark_contacted : NodeHeap → Node → NodeHeap
mark_contacted h n = if is_contacted h n then h else record h { contacted = n.id ∷ h.contacted }

unfoldable pub get_uncontacted : NodeHeap → List Node
unfolding iter
get_uncontacted h = retain (λ n. not (is_contacted h n)) (iter h)

unfoldable pub have_contacted_all : NodeHeap → Bool
unfolding get_uncontacted
have_contacted_all h = elim (get_uncontacted h) [ [] ↦ true | n ∷ ns ↦ false ]

unfoldable pub to_vec : NodeHeap → List Node
unfolding iter
to_vec h = iter h
