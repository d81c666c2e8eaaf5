-- ===== src/Protocol/Requests.antt =====
-- src/protocol.rs: `rpc_find_node`, `rpc_find_value` and `dispatch_request`. A handled request is the
-- state after it, the tasks that it spawned, and the response, if one is sent.
use auth_kademlia.Prelude.{ℕ, Bool, Option, none, some, List, [], ◌∷◌, map}
use auth_kademlia.Prelude.Bytes.{Bytes}
use auth_kademlia.Node.{Node, from_id}
use auth_kademlia.Routing.Table.{Outcome, done}
use auth_kademlia.Storage
use auth_kademlia.Protocol.{
  SignatureVerifierHandler, CacheOps, KademliaProtocol, Reply, source_of, rpc_store, rpc_update,
  rpc_update_status_list, rpc_delete, rpc_ping, rpc_leave,
}
use auth_kademlia.Protocol.Chain.{and_then, neighbors_of}
use auth_kademlia.Protocol.Message.{
  RpcMessage, ping, pong, store, store_result, update, update_result, update_status_list,
  update_status_list_result, delete, delete_result, find_node, find_node_result, find_value,
  find_value_nodes, find_value_hit, leave, to_wire,
}
use auth_kademlia.Protocol.Welcome.{Welcome, welcome_if_new}

pub data FindValueResult : Type 0 where
  nodes : List Node → FindValueResult
  value : Bytes → FindValueResult

-- `welcomes` are the nodes handed to `welcome_if_new`; `pings` and `stores` are what the call of it
-- inside `rpc_find_value` spawned.
pub record Handled (Cache : Type 0) : Type 0 where
  pub after : KademliaProtocol Cache
  pub welcomes : List Node
  pub pings : Option Node
  pub stores : List (Bytes × Bytes)
  pub response : Option RpcMessage

unfoldable pub find_value_response : FindValueResult → RpcMessage
find_value_response (value v) = find_value_hit v
find_value_response (nodes ns) = find_value_nodes (map to_wire ns)

module _ {Cache : Type 0} where
  unfoldable pub rpc_find_node :
      KademliaProtocol Cache
      → ℕ
      → Bytes
      → Bytes × ℕ
      → Bytes
      → Outcome (KademliaProtocol Cache × List Node)
  rpc_find_node p now sender_id addr key =
      and_then (neighbors_of now p.router (from_id key) (some (source_of sender_id addr)))
        (λ found. done (record p { router = found.0 }, found.1))

  unfoldable pub find_value_in :
      Welcome Cache → ℕ → Node → Bytes → Option Bytes → Outcome (Welcome Cache × FindValueResult)
  find_value_in w now source key (some v) = done (w, value v)
  find_value_in w now source key none =
      and_then (neighbors_of now w.after.router (from_id key) (some source))
        (λ found. done (record w { after = record w.after { router = found.0 } }, nodes found.1))

  unfoldable pub rpc_find_value :
      KademliaProtocol Cache
      → ℕ
      → Bytes
      → Bytes × ℕ
      → Bytes
      → Outcome (Welcome Cache × FindValueResult)
  unfolding find_value_in
  rpc_find_value p now sender_id addr key =
      and_then (welcome_if_new p now (source_of sender_id addr)) (λ w.
        find_value_in w now (source_of sender_id addr) key (Storage.get w.after.storage now key))

  -- A request whose handler replies with a Boolean, that `result` makes the response of.
  unfoldable pub replied : (Bool → RpcMessage) → Reply Cache → Handled Cache
  replied result r = record {
    after = r.after;
    welcomes = r.welcomes;
    pings = none;
    stores = [];
    response = some (result r.ok);
  }

  unfoldable pub ignored : KademliaProtocol Cache → Handled Cache
  ignored p = record { after = p; welcomes = []; pings = none; stores = []; response = none }

  module _ (ops : CacheOps Cache) (handler : SignatureVerifierHandler) (status_key : Bytes) where
    unfoldable pub dispatch_request :
        KademliaProtocol Cache → ℕ → Bytes × ℕ → RpcMessage → Outcome (Handled Cache)
    unfolding rpc_find_node rpc_find_value find_value_response replied ignored
    dispatch_request p now addr (ping sender_id) =
        let answer = rpc_ping ops handler status_key p sender_id addr in
        done (record {
          after = p;
          welcomes = answer.0;
          pings = none;
          stores = [];
          response = some (pong answer.1);
        })
    dispatch_request p now addr (store sender_id key v) =
        and_then (rpc_store ops handler status_key p now sender_id addr key v)
          (λ r. done (replied store_result r))
    dispatch_request p now addr (update sender_id key v auth_signature) = done (
        replied update_result
          (rpc_update ops handler status_key p now sender_id addr key v auth_signature))
    dispatch_request p now addr (update_status_list sender_id key v) = done (
        replied update_status_list_result
          (rpc_update_status_list ops handler status_key p now sender_id addr key v))
    dispatch_request p now addr (delete sender_id key auth_signature delete_msg) = done (
        replied delete_result
          (rpc_delete ops handler status_key p now sender_id addr key auth_signature delete_msg))
    dispatch_request p now addr (find_node sender_id key) =
        and_then (rpc_find_node p now sender_id addr key) (λ found. done (record {
          after = found.0;
          welcomes = source_of sender_id addr ∷ [];
          pings = none;
          stores = [];
          response = some (find_node_result (map to_wire found.1));
        }))
    dispatch_request p now addr (find_value sender_id key) =
        and_then (rpc_find_value p now sender_id addr key) (λ found. done (record {
          after = found.0.after;
          welcomes = [];
          pings = found.0.pings;
          stores = found.0.stores;
          response = some (find_value_response found.1);
        }))
    dispatch_request p now addr (leave sender_id) =
        and_then (rpc_leave ops handler status_key p sender_id addr) (λ left. done (ignored left))
    dispatch_request p now addr _ = done (ignored p)
