-- ===== src/Routing/Tests.antt =====
-- The routing table on small inputs: a table of bucket size 1 with one contact, and a second one.
use auth_kademlia.Prelude.{
  none, ◌≤◌, ◌*◌, ◌-◌, ◌^◌, ◌<◌, ◌≡◌, refl, [], ◌∷◌, ◌++◌, replicate, arith, position,
}
use auth_kademlia.Prelude.Bytes.{from_be_bytes}
use auth_kademlia.Node.{Node, from_id, new, id_to_u128}
use auth_kademlia.Routing.Bucket
use auth_kademlia.Routing.Bucket.{KBucket, add_node, remove_node, split}
use auth_kademlia.Routing.Bucket.Invariant.{
  IsBucket, new-IsBucket, add_node-IsBucket, remove_node-IsBucket,
}
use auth_kademlia.Routing.Table.{RoutingTable, insert, add_contact, remove_contact}
use auth_kademlia.Routing.Table.Place.{IsTable}
use auth_kademlia.Routing.Table.Split.{IsSplit, middle, split-IsSplit}
use auth_kademlia.Routing.Table.Total.{Inserted, insert-Inserted}
use auth_kademlia.Routing.Table.Operations.{
  Keeps, AddedTo, add_contact-AddedTo, remove_contact-Keeps,
}
use auth_kademlia.Routing.Neighbors.{find_neighbors}
use auth_kademlia.Routing.Neighbors.Walk.{load}
use auth_kademlia.Routing.Neighbors.Search.{Found, find_neighbors-Found}
use auth_kademlia.Routing.Table.Twins.{twins, twins_of, twins_in, is_twin}

abbrev local : Node
local = from_id (replicate 20 0)

abbrev near : Node
near = from_id (replicate 15 0 ++ 1 ∷ replicate 4 0)

abbrev far : Node
far = from_id (200 ∷ replicate 19 0)

long_ids : (near.long_id ≡ 1) × (far.long_id ≡ 200 * 2 ^ 120)
unfolding from_id new id_to_u128 from_be_bytes
long_ids = (refl, refl)

near_fits : near.long_id < 2 ^ 128
near_fits = omega (arith, long_ids)

far_fits : far.long_id < 2 ^ 128
far_fits = omega (arith, long_ids)

abbrev one_bucket : KBucket
one_bucket = (add_node (Bucket.new 0 0 (2 ^ 128 - 1) 1) near).0

one_bucket-IsBucket : IsBucket one_bucket
unfolding Bucket.new
one_bucket-IsBucket =
    add_node-IsBucket (Bucket.new 0 0 (2 ^ 128 - 1) 1) near (new-IsBucket 0 0 (2 ^ 128 - 1) 1)
      (omega arith, omega (arith, near_fits))

one_bucket_range : (one_bucket.lo ≡ 0) × (one_bucket.hi ≡ 2 ^ 128 - 1) × (one_bucket.ksize ≡ 1)
unfolding Bucket.new add_node position
one_bucket_range = (refl, refl, refl)

abbrev one_contact : RoutingTable
one_contact = record { node = local; ksize = 1; buckets = one_bucket ∷ [] }

one_contact-IsTable : IsTable one_contact
one_contact-IsTable = record {
  spans = (one_bucket_range.0, omega (arith, one_bucket_range), omega (arith, one_bucket_range));
  buckets_ok = ((one_bucket-IsBucket, one_bucket_range.2), tt);
}

no_twins : twins far one_contact.buckets < 1
unfolding twins twins_of twins_in is_twin add_node Bucket.new from_id new id_to_u128 position
    from_be_bytes
no_twins = omega arith

insert-Inserted_example : Inserted one_contact far (insert 129 0 one_contact far)
insert-Inserted_example = insert-Inserted 0 one_contact far one_contact-IsTable far_fits no_twins

add_contact-AddedTo_example : AddedTo one_contact far (add_contact 129 0 one_contact far)
add_contact-AddedTo_example =
    add_contact-AddedTo 0 one_contact far one_contact-IsTable far_fits no_twins

remove_contact-Keeps_example : Keeps one_contact (remove_contact one_contact near) (λ r. r)
remove_contact-Keeps_example = remove_contact-Keeps one_contact near one_contact-IsTable near_fits

split-IsSplit_example : IsSplit one_bucket (middle one_bucket) (split 0 one_bucket)
split-IsSplit_example =
    split-IsSplit 0 one_bucket one_bucket-IsBucket (omega (arith, one_bucket_range))
      (omega (arith, one_bucket_range))

add_node-IsBucket_example : IsBucket (add_node one_bucket far).0
add_node-IsBucket_example =
    add_node-IsBucket one_bucket far one_bucket-IsBucket
      (omega (arith, one_bucket_range), omega (arith, one_bucket_range, far_fits))

remove_node-IsBucket_example : IsBucket (remove_node (add_node one_bucket far).0 near)
remove_node-IsBucket_example =
    remove_node-IsBucket (add_node one_bucket far).0 near add_node-IsBucket_example

light : load one_contact.buckets ≤ 10
unfolding load add_node Bucket.new position
light = omega arith

find_neighbors-Found_example : Found one_contact far none (find_neighbors 10 0 one_contact far none)
find_neighbors-Found_example =
    find_neighbors-Found 10 0 one_contact far none one_contact-IsTable (omega arith) far_fits light
