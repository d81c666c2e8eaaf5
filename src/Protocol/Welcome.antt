-- ===== src/Protocol/Welcome.antt =====
-- src/protocol.rs: `welcome_if_new` and `get_refresh_ids`. The tasks that `welcome_if_new` spawns, a
-- ping and the stores of the replicated keys, are part of its result.
use mathlib.Core.Option
use auth_kademlia.Prelude.{
  ℕ, Bool, true, ◌&&◌, not, Option, none, some, List, [], ◌∷◌, ◌++◌, map, length, replicate, ltb,
  ◌==◌, if◌then◌else◌,
}
use auth_kademlia.Prelude.Bytes.{Bytes, to_be_bytes}
use auth_kademlia.Node.{Node, id_len, from_id, distance_to}
use auth_kademlia.Routing.Bucket.{KBucket}
use auth_kademlia.Routing.Table.{
  RoutingTable, Outcome, done, is_new_node, add_contact, lonely_buckets,
}
use auth_kademlia.Storage.{iter_all}
use auth_kademlia.Protocol.{KademliaProtocol}
use auth_kademlia.Protocol.Chain.{and_then, neighbors_of}

-- `first` and `last` of a slice.
abbrev pub first_node : List Node → Option Node
first_node [] = none
first_node (n ∷ ns) = some n

abbrev pub last_node : List Node → Option Node
last_node [] = none
last_node (n ∷ ns) = some (Option.get_or (last_node ns) n)

-- Whether `node` is nearer to the key than another node, if there is one.
unfoldable pub nearer_than : Node → Node → Option Node → Bool
nearer_than node key_node none = true
nearer_than node key_node (some other) =
    ltb (distance_to node key_node) (distance_to other key_node)

unfoldable pub is_replicated : Node → Node → Node → List Node → Bool
unfolding nearer_than
is_replicated self_node node key_node neighbors =
    let new_node_close = nearer_than node key_node (last_node neighbors) in
    let this_closest = nearer_than self_node key_node (first_node neighbors) in
    new_node_close && this_closest

-- The entries that the new node is to have, in the order of the store. Each search touches a bucket.
unfoldable pub keys_to_replicate :
    ℕ
    → Node
    → Node
    → RoutingTable
    → List (Bytes × Bytes)
    → Outcome (RoutingTable × List (Bytes × Bytes))
unfolding is_replicated
keys_to_replicate now self_node node t [] = done (t, [])
keys_to_replicate now self_node node t ((key, value) ∷ entries) =
    if not (length key == id_len)
    then keys_to_replicate now self_node node t entries
    else and_then (neighbors_of now t (from_id key) none) (λ found.
      and_then (keys_to_replicate now self_node node found.0 entries) (λ rest. done (
        rest.0,
        if is_replicated self_node node (from_id key) found.1
            then (key, value) ∷ rest.1
            else rest.1,
      )))

-- The state afterwards, the least recently seen node that is pinged, and what the new node is sent.
pub record Welcome (Cache : Type 0) : Type 0 where
  pub after : KademliaProtocol Cache
  pub pings : Option Node
  pub stores : List (Bytes × Bytes)

-- The identifier for a number of the bucket's range: `random` is what `gen_range` gives.
unfoldable pub refresh_id : (ℕ → ℕ → ℕ) → KBucket → Bytes
refresh_id random b = to_be_bytes 16 (random b.lo b.hi) ++ replicate 4 0

module _ {Cache : Type 0} where
  -- Past the test that the node is new.
  unfoldable pub welcome : KademliaProtocol Cache → ℕ → Node → Outcome (Welcome Cache)
  unfolding keys_to_replicate
  welcome p now node =
      and_then (keys_to_replicate now p.source_node node p.router (iter_all p.storage now)) (λ keys.
        and_then (add_contact 129 now keys.0 node) (λ added.
          done
            (record { after = record p { router = added.0 }; pings = added.1; stores = keys.1 })))

  unfoldable pub welcome_if_new : KademliaProtocol Cache → ℕ → Node → Outcome (Welcome Cache)
  unfolding welcome
  welcome_if_new p now node = and_then (is_new_node p.router node) (λ is_new.
      if is_new then welcome p now node else done (record { after = p; pings = none; stores = [] }))

  unfoldable pub get_refresh_ids : KademliaProtocol Cache → ℕ → (ℕ → ℕ → ℕ) → List Bytes
  unfolding refresh_id
  get_refresh_ids p now random = map (refresh_id random) (lonely_buckets now p.router)
