-- ===== src/Routing/Neighbors.antt =====
-- `TableTraverser` and `RoutingTable::find_neighbors`. A `Vec` that is popped is a list from its end.
pub mod Walk
pub mod Search
use auth_kademlia.Prelude.{
  ℕ, zero, suc, ◌+◌, Bool, true, false, ◌||◌, Option, none, some, List, [], ◌∷◌, map, length, take,
  drop, get_elem?, set, ◌==◌, if◌then◌else◌,
}
use mathlib.Core.List.{reverse}
use mathlib.Core.Option
use auth_kademlia.Prelude.Sort.{sort_by_key}
use auth_kademlia.Node.{Node, same_id, distance_to}
use auth_kademlia.Routing.Bucket.{KBucket, touch_last_updated}
use auth_kademlia.Routing.Table.{RoutingTable, Outcome, done, panic, out_of_fuel, bucket_index_for}

pub record TableTraverser : Type 0 where
  pub current_nodes : List Node
  pub left_buckets : List KBucket
  pub right_buckets : List KBucket
  pub take_left : Bool

-- The traverser around the bucket at `idx`.
unfoldable pub start : List KBucket → ℕ → KBucket → TableTraverser
start buckets idx bucket = record {
  current_nodes = reverse bucket.nodes;
  left_buckets = take idx buckets;
  right_buckets = drop (suc idx) buckets;
  take_left = true;
}

-- What the code of `next` does before it returns or calls itself.
pub data Step : Type 0 where
  yields : Node → TableTraverser → Step
  refills : TableTraverser → Step
  ends : Step

unfoldable pub from_left : TableTraverser → Step
from_left t = elim t.left_buckets [
  | [] ↦ ends
  | b ∷ bs ↦ refills (record t { current_nodes = reverse b.nodes; left_buckets = bs })
]

unfoldable pub from_right : TableTraverser → Step
unfolding from_left
from_right t = elim t.right_buckets [
  | [] ↦ from_left t
  | b ∷ bs ↦
      refills (record t { current_nodes = reverse b.nodes; right_buckets = bs; take_left = true })
]

unfoldable pub from_sides : TableTraverser → Step
unfolding from_right
from_sides t = elim t.left_buckets [
  | [] ↦ from_right t
  | b ∷ bs ↦
      if t.take_left
      then refills
          (record t { current_nodes = reverse b.nodes; left_buckets = bs; take_left = false })
      else from_right t
]

unfoldable pub step : TableTraverser → Step
unfolding from_sides
step t = elim t.current_nodes [
  | [] ↦ from_sides t
  | n ∷ ns ↦ yields n (record t { current_nodes = ns })
]

-- The nodes that `next` gives, call after call, until it gives none.
unfoldable pub walk : ℕ → TableTraverser → Option (List Node)
walk zero t = none
walk (suc fuel) t = elim (step t) [
  | yields n t' ↦ Option.map (◌∷◌ n) (walk fuel t')
  | refills t' ↦ walk fuel t'
  | ends ↦ some []
]

unfoldable pub is_excluded : Node → Option Node → Node → Bool
is_excluded target exclude n =
    same_id n.id target.id || (elim exclude [ none ↦ false | some ex ↦ same_id n.id ex.id ])

-- The loop of `find_neighbors`, with the number of nodes that it has.
unfoldable pub collect : Node → Option Node → ℕ → ℕ → List Node → List Node
unfolding is_excluded
collect target exclude ksize count [] = []
collect target exclude ksize count (n ∷ ns) =
    let rest = collect target exclude ksize count ns in
    let more = collect target exclude ksize (suc count) ns in
    if is_excluded target exclude n then rest else if suc count == ksize then n ∷ [] else n ∷ more

-- The candidates in the order of their distances.
unfoldable pub nearest_first : Node → List Node → List Node
nearest_first target ns = sort_by_key (λ n. distance_to n target) ns

unfoldable pub answer_of :
    RoutingTable → Node → Option Node → Option (List Node) → Outcome (RoutingTable × List Node)
answer_of t target exclude none = out_of_fuel
answer_of t target exclude (some visited) =
    done (t, nearest_first target (collect target exclude t.ksize 0 visited))

-- The central bucket is touched; its index is out of range only in a table without buckets.
unfoldable pub find_neighbors :
    ℕ → ℕ → RoutingTable → Node → Option Node → Outcome (RoutingTable × List Node)
find_neighbors fuel now t target exclude =
    let idx = bucket_index_for t target.long_id in
    elim (get_elem? t.buckets idx) [
      | none ↦ panic
      | some bucket ↦
          answer_of (record t { buckets = set t.buckets idx (touch_last_updated now bucket) })
            target exclude (walk fuel (start t.buckets idx bucket))
    ]
