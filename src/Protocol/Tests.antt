-- ===== src/Protocol/Tests.antt =====
-- Requests that write, to the node of Fixtures.
use auth_kademlia.Prelude.{◌^◌, ◌<◌, ◌≡◌, [], ◌∷◌, replicate, arith}
use auth_kademlia.Prelude.Bytes.{from_be_bytes}
use auth_kademlia.Node
use auth_kademlia.Node.{Node, from_id, id_to_u128}
use auth_kademlia.Routing.Table.Operations.{new-IsTable}
use auth_kademlia.Storage.{set, get, delete}
use auth_kademlia.Protocol.{
  source_of, verify_for_key, rpc_store, rpc_update, rpc_update_status_list, rpc_delete,
}
use auth_kademlia.Protocol.Guard.{
  Guarded, Accepted, Stored, rpc_store-Stored, rpc_update-Guarded, rpc_update_status_list-Guarded,
  rpc_delete-Guarded,
}
use auth_kademlia.Protocol.Cache.{Judged, verify_for_key-Judged}
use auth_kademlia.Protocol.Fixtures.{
  list_cache, by_first_byte, key, status, self, peer, list_cache-IsCache,
}

sender_fits : (source_of (replicate 20 0) ([], 80)).long_id < 2 ^ 128
unfolding Node.new id_to_u128 from_be_bytes
sender_fits = omega arith

rpc_store-Stored_example :
    Stored list_cache by_first_byte status peer 5 status (1 ∷ 2 ∷ []) (
      rpc_store list_cache by_first_byte status peer 5
        (replicate 20 0)
        ([], 80)
        status
        (1 ∷ 2 ∷ []))
rpc_store-Stored_example =
    rpc_store-Stored list_cache by_first_byte status peer 5 (replicate 20 0) ([], 80) status
      (1 ∷ 2 ∷ []) (new-IsTable 0 self 20) sender_fits

rpc_update-Guarded_example :
    Guarded peer.storage
      (Accepted list_cache by_first_byte status
        (λ old. by_first_byte.handle_update_verification (1 ∷ 2 ∷ []) old [])
        (get peer.storage 5 key))
      (set peer.storage 5 key (1 ∷ 2 ∷ []))
      (rpc_update list_cache by_first_byte status peer 5
        (replicate 20 0)
        ([], 80)
        key
        (1 ∷ 2 ∷ [])
        [])
rpc_update-Guarded_example =
    rpc_update-Guarded list_cache by_first_byte status peer 5 (replicate 20 0) ([], 80) key
      (1 ∷ 2 ∷ []) []

rpc_update_status_list-Guarded_example :
    Guarded peer.storage
      (Accepted list_cache by_first_byte status
        (λ _. by_first_byte.handle_issuer_node_signature_verification (1 ∷ 2 ∷ []))
        (get peer.storage 5 key))
      (set peer.storage 5 key (1 ∷ 2 ∷ []))
      (rpc_update_status_list list_cache by_first_byte status peer 5
        (replicate 20 0)
        ([], 80)
        key
        (1 ∷ 2 ∷ []))
rpc_update_status_list-Guarded_example =
    rpc_update_status_list-Guarded list_cache by_first_byte status peer 5 (replicate 20 0) ([], 80)
      key (1 ∷ 2 ∷ [])

rpc_delete-Guarded_example :
    Guarded peer.storage
      (Accepted list_cache by_first_byte status
        (λ old. by_first_byte.handle_signature_delete_operation old [] [])
        (get peer.storage 5 key))
      (delete peer.storage key)
      (rpc_delete list_cache by_first_byte status peer 5 (replicate 20 0) ([], 80) key [] [])
rpc_delete-Guarded_example =
    rpc_delete-Guarded list_cache by_first_byte status peer 5 (replicate 20 0) ([], 80) key [] []

verify_for_key-Judged_example :
    let r = verify_for_key list_cache by_first_byte status peer key (1 ∷ []) in
    Judged list_cache by_first_byte status peer.sig_cache key (1 ∷ []) (r.0.sig_cache, r.1)
    × (r.0 ≡ record peer { sig_cache = r.0.sig_cache })
verify_for_key-Judged_example =
    verify_for_key-Judged list_cache by_first_byte status list_cache-IsCache peer key (1 ∷ [])
