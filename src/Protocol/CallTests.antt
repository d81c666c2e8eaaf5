-- ===== src/Protocol/CallTests.antt =====
-- Requests that search, calls of a peer at an address, and the table of calls.
use auth_kademlia.Prelude.{
  ℕ, ◌^◌, ◌<◌, ◌≡◌, refl, subst, Bool, true, Option, some, List, [], ◌∷◌, map, replicate, All,
  arith,
}
use auth_kademlia.Prelude.Bytes.{Bytes, from_be_bytes}
use auth_kademlia.Node
use auth_kademlia.Node.{Node, IsNode, IsNodeId, from_id, id_to_u128, address}
use auth_kademlia.Prelude.Assoc
use auth_kademlia.Storage
use auth_kademlia.Routing.Bucket
use auth_kademlia.Routing.Table
use auth_kademlia.Routing.Table.{done}
use auth_kademlia.Routing.Table.Operations.{new-IsTable}
use auth_kademlia.Routing.Table.Twins.{twins, twins_of, twins_in}
use auth_kademlia.Crawling.{RawResponse, get_node_list}
use auth_kademlia.Protocol.{source_of}
use auth_kademlia.Protocol.Fixtures.{list_cache, by_first_byte, key, status, self, peer}
use auth_kademlia.Protocol.Chain.{Returns}
use auth_kademlia.Protocol.Message.{RpcMessage, find_value, find_node_result, to_wire, ping, pong}
use auth_kademlia.Protocol.Welcome.{welcome_if_new}
use auth_kademlia.Protocol.Welcomed.{CanWelcome}
use auth_kademlia.Protocol.Replicated.{Replicated, welcome_if_new-Replicated}
use auth_kademlia.Routing.Table.{lonely_buckets}
use auth_kademlia.Protocol.Welcome.{get_refresh_ids}
use auth_kademlia.Protocol.Refresh.{IsRandom, Covered, get_refresh_ids-Covered}
use auth_kademlia.Protocol.Requests.{dispatch_request}
use auth_kademlia.Protocol.Dispatched.{
  CanServe, Dispatched, sender, looked_up, dispatch_request-Dispatched,
}
use auth_kademlia.Protocol.Calls.{call_find_node}
use auth_kademlia.Protocol.Called.{call_find_node-listed}
use auth_kademlia.Protocol.Pending.{no_calls, begin_call, starts, steps, begins}
use auth_kademlia.Protocol.Delivery.{Goes, deliver-Goes}

abbrev sender_id : Bytes
sender_id = replicate 20 0

abbrev home : Bytes × ℕ
home = ([], 80)

source_fits : (source_of sender_id home).long_id < 2 ^ 128
unfolding Node.new id_to_u128 from_be_bytes
source_fits = omega arith

source_address : address (source_of sender_id home) ≡ some home
unfolding Node.new address
source_address = refl

source-CanWelcome : CanWelcome peer (source_of sender_id home)
unfolding Table.new Bucket.new twins twins_of twins_in Storage.set Storage.new Assoc.put Assoc.erase
source-CanWelcome = record {
  router_ok = new-IsTable 0 self 20;
  capacity = omega arith;
  fits = source_fits;
  few = omega arith;
  keys = (ground arith, tt);
}

welcome_if_new-Replicated_example :
    Returns
      (Replicated peer 5 (source_of sender_id home))
      (welcome_if_new peer 5 (source_of sender_id home))
welcome_if_new-Replicated_example =
    welcome_if_new-Replicated peer 5 (source_of sender_id home) source-CanWelcome

key-IsNodeId : IsNodeId key
key-IsNodeId = record { sized = refl; bytes = ground arith }

some_bytes : (a b : Bytes) → some a ≡ some b → a ≡ b
some_bytes a b h = ground arith

find_value-CanServe : CanServe peer home (find_value sender_id key)
unfolding sender looked_up
find_value-CanServe = record {
  router_ok = source-CanWelcome.router_ok;
  sender_ok = λ s e.
      subst (λ i. CanWelcome peer (source_of i home)) (some_bytes sender_id s e) source-CanWelcome;
  key_ok = λ k e. subst IsNodeId (some_bytes key k e) key-IsNodeId;
}

dispatch_request-Dispatched_example :
    Returns
      (Dispatched list_cache by_first_byte status peer 5 (find_value sender_id key))
      (dispatch_request list_cache by_first_byte status peer 5 home (find_value sender_id key))
dispatch_request-Dispatched_example =
    dispatch_request-Dispatched list_cache by_first_byte status peer 5 home
      (find_value sender_id key) find_value-CanServe

abbrev listed : List Node
listed = from_id key ∷ []

listed-IsNode : All IsNode listed
unfolding Node.new from_id
listed-IsNode = (record { identifier = key-IsNodeId; folded = refl }, tt)

-- Every peer answers with the one node.
abbrev answer : Bytes × ℕ → RpcMessage → Option RpcMessage
answer addr message = some (find_node_result (map to_wire listed))

abbrev parses : Bytes × ℕ → Bool
parses addr = true

call_find_node-listed_example :
    (raw : RawResponse) × (call_find_node parses answer peer
        (source_of sender_id home)
        (from_id key)
      ≡ done (peer, (raw, source_of sender_id home ∷ [])))
    × (raw.happened ≡ true)
    × (get_node_list raw ≡ listed)
call_find_node-listed_example =
    call_find_node-listed parses answer peer (source_of sender_id home) (from_id key) home listed
      source_address refl refl listed-IsNode

deliver-Goes_example : Goes (begin_call no_calls (ping sender_id)).0 0 (pong key)
deliver-Goes_example =
    deliver-Goes (begin_call no_calls (ping sender_id)).0 0 (pong key)
      (steps starts (begins no_calls (ping sender_id)))

lowest : IsRandom (λ lo hi. lo)
lowest = record { above = λ lo hi h. omega arith; below = λ lo hi h. h }

get_refresh_ids-Covered_example :
    Covered (lonely_buckets 9000 peer.router) (get_refresh_ids peer 9000 (λ lo hi. lo))
get_refresh_ids-Covered_example =
    get_refresh_ids-Covered peer 9000 (λ lo hi. lo) source-CanWelcome.router_ok lowest
