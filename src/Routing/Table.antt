-- ===== src/Routing/Table.antt =====
-- `RoutingTable`: buckets in the order of their ranges.
pub mod Place
pub mod Split
pub mod Twins
pub mod Insert
pub mod OnePass
pub mod Total
pub mod Operations
use auth_kademlia.Prelude.{
  ℕ, zero, suc, ◌-◌, ◌%◌, ◌^◌, ◌≡◌, Bool, true, false, ◌||◌, not, Option, none, some, List, [], ◌∷◌,
  length, position, remove_at, get_elem?, set, retain, ◌==◌, if◌then◌else◌, ite,
}
use mathlib.Core.Option
use auth_kademlia.Prelude.Bytes.{bytes_eq}
use auth_kademlia.Node.{Node, same_id}
use auth_kademlia.Routing.Bucket
use auth_kademlia.Routing.Bucket.{
  KBucket, add_node, remove_node, split, depth, is_lonely, head, covers,
}

pub record RoutingTable : Type 0 where
  pub node : Node
  pub ksize : ℕ
  pub buckets : List KBucket

-- A call returns, panics on an index out of range, or makes more nested calls than the fuel allows.
pub data Outcome (A : Type 0) : Type 0 where
  done : A → Outcome A
  panic : Outcome A
  out_of_fuel : Outcome A

unfoldable pub new : ℕ → Node → ℕ → RoutingTable
new now node ksize = record {
  node = node;
  ksize = ksize;
  buckets = Bucket.new now 0 (2 ^ 128 - 1) ksize ∷ [];
}

unfoldable pub bucket_index_for : RoutingTable → ℕ → ℕ
bucket_index_for t long_id =
    Option.get_or (position (λ b. covers b long_id) t.buckets) (length t.buckets - 1)

-- `Vec::insert`.
unfoldable pub insert_at : List KBucket → ℕ → KBucket → List KBucket
insert_at bs zero b = b ∷ bs
insert_at [] (suc i) b = b ∷ []
insert_at (c ∷ bs) (suc i) b = c ∷ insert_at bs i b

unfoldable pub split_bucket : ℕ → RoutingTable → ℕ → RoutingTable
unfolding insert_at
split_bucket now t idx = elim (get_elem? t.buckets idx) [
  | none ↦ t
  | some bucket ↦
      let halves = split now bucket in
      let rest = remove_at t.buckets idx in
      record t { buckets = insert_at (insert_at rest idx halves.1) idx halves.0 }
]

-- One pass of `insert`: the call returns, or has split the bucket and starts again.
pub data Pass : Type 0 where
  returns : RoutingTable → Option Node → Pass
  again : RoutingTable → Pass

unfoldable pub insert_pass : ℕ → RoutingTable → Node → ℕ → KBucket → Pass
insert_pass now t node idx bucket =
    let added = add_node bucket node in
    let t' = record t { buckets = set t.buckets idx added.0 } in
    if added.1
    then returns t' none
    else if covers added.0 t.node.long_id || not (depth added.0 % 5 == 0)
    then again (split_bucket now t' idx)
    else returns t' (head added.0)

unfoldable pub insert : ℕ → ℕ → RoutingTable → Node → Outcome (RoutingTable × Option Node)
insert zero now t node = out_of_fuel
insert (suc fuel) now t node =
    let idx = bucket_index_for t node.long_id in
    elim (get_elem? t.buckets idx) [
      | none ↦ panic
      | some bucket ↦ elim (insert_pass now t node idx bucket) [
        | returns t' lru ↦ done (t', lru)
        | again t' ↦ insert fuel now t' node
      ]
    ]

unfoldable pub add_contact : ℕ → ℕ → RoutingTable → Node → Outcome (RoutingTable × Option Node)
add_contact fuel now t node =
    if same_id node.id t.node.id then done (t, none) else insert fuel now t node

unfoldable pub remove_contact : RoutingTable → Node → Outcome RoutingTable
remove_contact t node =
    let idx = bucket_index_for t node.long_id in
    elim (get_elem? t.buckets idx) [
      | none ↦ panic
      | some bucket ↦ done (record t { buckets = set t.buckets idx (remove_node bucket node) })
    ]

unfoldable pub is_new_node : RoutingTable → Node → Outcome Bool
is_new_node t node =
    let idx = bucket_index_for t node.long_id in
    elim (get_elem? t.buckets idx) [
      | none ↦ panic
      | some bucket ↦ done (not (Bucket.contains bucket node))
    ]

unfoldable pub lonely_buckets : ℕ → RoutingTable → List KBucket
lonely_buckets now t = retain (is_lonely now) t.buckets
