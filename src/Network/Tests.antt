-- ===== src/Network/Tests.antt =====
-- A server that holds a record, in a network where each peer answers with the record.
use mathlib.Core.List.Perm
use auth_kademlia.Prelude.{
  ◌≡◌, refl, inl, inr, true, some, [], ◌∷◌, All, arith, Option-cases, Bool-cases, if◌then◌else◌,
}
use auth_kademlia.Prelude.Bytes.{Bytes, bytes_eq}
use auth_kademlia.Node.{Node, same_id, address, from_id}
use auth_kademlia.Routing.Bucket
use auth_kademlia.Routing.Table
use auth_kademlia.Routing.Table.Operations.{new-IsTable}
use auth_kademlia.Storage
use auth_kademlia.Crawling.{get_node_list, decode_triples}
use auth_kademlia.Crawling.Contacts.{IsPeer}
use auth_kademlia.Protocol.{KademliaProtocol, verify_for_key}
use auth_kademlia.Protocol.Fixtures.{
  Cached, list_cache, by_first_byte, key, status, self, peer, list_cache-IsCache, empty-IsSound,
}
use auth_kademlia.Protocol.Chain.{Returns}
use auth_kademlia.Protocol.Welcomed.{key_fits}
use auth_kademlia.Protocol.Message.{RpcMessage, find_node, find_node_result, find_value_hit}
use auth_kademlia.Protocol.Calls.{
  call_find_node, call_find_value, call_at, or_remove, read_find_node, read_find_value, to_response,
}
use auth_kademlia.Network.{
  Server, World, removes, status_list_key, response_of, value_response, node_response, with_shared,
  verify_value, get,
}
use auth_kademlia.Network.Publish.{set, update, delete}
use auth_kademlia.Network.Verify.{verify_value-verify_for_key}
use auth_kademlia.Network.Lookup.{IsWorld}
use auth_kademlia.Network.Get.{IsServer, Got, get-Got}
use auth_kademlia.Network.Published.{
  Operated, FoundUnder, MayUpdate, MayDelete, update-Operated, delete-Operated,
}

abbrev digest : Bytes → Bytes
digest k = if same_id k status_list_key then status else key

abbrev answer : RpcMessage → RpcMessage
answer (find_node s k) = find_node_result []
answer _ = find_value_hit (1 ∷ [])

abbrev world : World
world = record {
  digest = digest;
  parses = λ addr. true;
  answer = λ addr message. some (answer message);
  order = λ rs. rs;
  order_counts = λ es. es;
  fuel = 1;
  router_calls = λ t. removes (from_id key) ∷ [];
}

names_none :
    (p : KademliaProtocol Cached) (target n : Node)
    → All (IsPeer []) (get_node_list (value_response world p target n))
      × All (IsPeer []) (get_node_list (node_response world p target n))
unfolding response_of call_find_value call_find_node call_at or_remove read_find_value
    read_find_node to_response get_node_list decode_triples
names_none p target n = elim (Option-cases (address n)) [
  | inl e ↦ rw (e, call_at) (tt, tt)
  | inr (addr, e) ↦ rw (e, call_at) (tt, tt)
]

world-IsWorld : IsWorld Cached [] world
world-IsWorld = record {
  digest_id = λ k. elim (Bool-cases (same_id k status_list_key)) [
    | inl e ↦ rw e (record { sized = refl; bytes = ground arith })
    | inr e ↦ rw e (record { sized = refl; bytes = ground arith })
  ];
  ordered = λ rs. Perm.rfl;
  ordered_counts = λ es. Perm.rfl;
  names_value = λ p target n. (names_none p target n).0;
  names_node = λ p target n. (names_none p target n).1;
  fitting = λ t v. (key_fits key refl (ground arith), λ t' e. tt);
  enough = omega arith;
}

abbrev server : Server Cached
server = record { ksize = 20; alpha = 3; shared = peer; listening = true }

server-IsServer : IsServer [] list_cache by_first_byte server
unfolding Table.new Bucket.new
server-IsServer = record {
  ready = record {
    table_ok = new-IsTable 0 self 20;
    capacity = omega arith;
    known = ((tt, tt), tt);
  };
  active = omega arith;
  sound = empty-IsSound;
}

other-key : digest (1 ∷ []) ≡ digest status_list_key → (1 ∷ []) ≡ status_list_key
unfolding bytes_eq
other-key e = absurd (ground (arith, e))

verify_value-verify_for_key_example :
    verify_value world list_cache by_first_byte server (1 ∷ []) (1 ∷ 2 ∷ []) ≡ (
      with_shared server
          (verify_for_key list_cache by_first_byte
            (digest status_list_key)
            peer
            (digest (1 ∷ []))
            (1 ∷ 2 ∷ [])).0,
      (verify_for_key list_cache by_first_byte
          (digest status_list_key)
          peer
          (digest (1 ∷ []))
          (1 ∷ 2 ∷ [])).1,
    )
verify_value-verify_for_key_example =
    verify_value-verify_for_key world list_cache by_first_byte server (1 ∷ []) (1 ∷ 2 ∷ [])
      other-key

get-Got_example :
    Returns
      (Got [] list_cache by_first_byte server (1 ∷ []))
      (get world list_cache by_first_byte server 5 (1 ∷ []))
get-Got_example =
    get-Got [] world world-IsWorld list_cache by_first_byte list_cache-IsCache server 5 (1 ∷ [])
      server-IsServer

update-Operated_example :
    Returns
      (Operated peer.storage (Storage.set peer.storage 5 (digest (1 ∷ [])) (1 ∷ 2 ∷ [])) (
        MayUpdate
          (FoundUnder world list_cache by_first_byte server 5 (1 ∷ []))
          by_first_byte
          (1 ∷ [])
          (1 ∷ 2 ∷ [])
          (some [])))
      (update world list_cache by_first_byte server 5 (1 ∷ []) (1 ∷ 2 ∷ []) (some []))
update-Operated_example =
    update-Operated [] world world-IsWorld list_cache by_first_byte list_cache-IsCache server 5
      (1 ∷ []) (1 ∷ 2 ∷ []) (some []) server-IsServer

delete-Operated_example :
    Returns
      (Operated peer.storage (Storage.delete peer.storage (digest (1 ∷ []))) (
        MayDelete
          (FoundUnder world list_cache by_first_byte server 5 (1 ∷ []))
          by_first_byte
          []
          []))
      (delete world list_cache by_first_byte server 5 (1 ∷ []) [] [])
delete-Operated_example =
    delete-Operated [] world world-IsWorld list_cache by_first_byte list_cache-IsCache server 5
      (1 ∷ []) [] [] server-IsServer
