-- ===== src/Protocol/Dispatched.antt =====
-- What a request does to a peer: `dispatch_request` returns, changes the store only where the request
-- is authorised, and answers in kind.
use auth_kademlia.Prelude.{
  ℕ, ◌^◌, ◌<◌, ◌≡◌, refl, sym, ap, subst, ◌⊎◌, inl, inr, Bool, true, Option, none, some, List,
  arith, Bool-cases,
}
use auth_kademlia.Prelude.Bytes.{Bytes}
use auth_kademlia.Node.{Node, IsNodeId, from_id}
use auth_kademlia.Routing.Table.Place.{IsTable}
use auth_kademlia.Routing.Table.Operations.{remove_contact-Keeps}
use auth_kademlia.Storage
use auth_kademlia.Storage.{ForgetfulStorage}
use auth_kademlia.Protocol.{
  SignatureVerifierHandler, CacheOps, KademliaProtocol, Reply, source_of, verify_for_key,
  rpc_update, rpc_update_status_list, rpc_delete, rpc_leave, leave_with, write_if, unwrap_or_false,
}
use auth_kademlia.Protocol.Guard.{
  Accepted, Guarded, rpc_store-Stored, rpc_update-Guarded, rpc_update_status_list-Guarded,
  rpc_delete-Guarded,
}
use auth_kademlia.Protocol.Chain.{Returns, Returns-done, Returns-and_then}
use auth_kademlia.Protocol.Message.{
  RpcMessage, ping, pong, store, store_result, update, update_result, update_status_list,
  update_status_list_result, delete, delete_result, find_node, find_node_result, find_value,
  find_value_nodes, find_value_hit, leave, WireNode,
}
use auth_kademlia.Protocol.Welcome.{Welcome}
use auth_kademlia.Protocol.Welcomed.{
  CanWelcome, Welcomed, neighbors_of-SameTable, key_fits, welcome_if_new-Welcomed,
}
use auth_kademlia.Protocol.Requests.{
  FindValueResult, nodes, value, Handled, rpc_find_node, rpc_find_value, find_value_in,
  find_value_response, replied, ignored, dispatch_request,
}

-- The identifiers that a request carries.
unfoldable pub sender : RpcMessage → Option Bytes
sender (ping s) = some s
sender (store s k v) = some s
sender (update s k v a) = some s
sender (update_status_list s k v) = some s
sender (delete s k a d) = some s
sender (find_node s k) = some s
sender (find_value s k) = some s
sender (leave s) = some s
sender _ = none

unfoldable pub looked_up : RpcMessage → Option Bytes
looked_up (find_node s k) = some k
looked_up (find_value s k) = some k
looked_up _ = none

-- The response that a request asks for: none to a node that leaves, and none to a response.
unfoldable pub RespondsTo : RpcMessage → Option RpcMessage → Type 0
RespondsTo (ping s) r = (id : Bytes) × (r ≡ some (pong id))
RespondsTo (store s k v) r = (ok : Bool) × (r ≡ some (store_result ok))
RespondsTo (update s k v a) r = (ok : Bool) × (r ≡ some (update_result ok))
RespondsTo (update_status_list s k v) r = (ok : Bool) × (r ≡ some (update_status_list_result ok))
RespondsTo (delete s k a d) r = (ok : Bool) × (r ≡ some (delete_result ok))
RespondsTo (find_node s k) r = (ns : List WireNode) × (r ≡ some (find_node_result ns))
RespondsTo (find_value s k) r =
    ((v : Bytes) × (r ≡ some (find_value_hit v)))
    ⊎ ((ns : List WireNode) × (r ≡ some (find_value_nodes ns)))
RespondsTo _ r = r ≡ none

module _ {Cache : Type 0} (ops : CacheOps Cache) (handler : SignatureVerifierHandler)
    (status_key : Bytes) where
  -- Why a request may change the store.
  unfoldable pub WriteAllowed : KademliaProtocol Cache → ℕ → RpcMessage → Type 0
  WriteAllowed p now (store s key v) = (verify_for_key ops handler status_key p key v).1 ≡ true
  WriteAllowed p now (update s key v auth) =
      Accepted ops handler status_key (λ old. handler.handle_update_verification v old auth)
        (Storage.get p.storage now key)
  WriteAllowed p now (update_status_list s key v) =
      Accepted ops handler status_key (λ _. handler.handle_issuer_node_signature_verification v)
        (Storage.get p.storage now key)
  WriteAllowed p now (delete s key auth msg) =
      Accepted ops handler status_key
        (λ old. handler.handle_signature_delete_operation old auth msg)
        (Storage.get p.storage now key)
  WriteAllowed p now _ = ⊥

  -- A handled request.
  pub record Dispatched (p : KademliaProtocol Cache) (now : ℕ) (msg : RpcMessage)
      (h : Handled Cache) : Type 0 where
    pub router_ok : IsTable h.after.router
    pub guarded : (h.after.storage ≡ p.storage) ⊎ WriteAllowed p now msg
    pub responds : RespondsTo msg h.response

  -- The router after the three handlers that replace or remove a value.
  write_if-IsTable :
      (p : KademliaProtocol Cache) (source : Node) (next : ForgetfulStorage)
      (accepts : Bytes → Option Bool) (o : Option Bytes)
      → IsTable p.router
      → IsTable (write_if ops handler status_key p source next accepts o).after.router
  unfolding write_if
  write_if-IsTable p source next accepts none v = v
  write_if-IsTable p source next accepts (some old) v =
      elim (Bool-cases (unwrap_or_false (accepts old))) [
        | inl good ↦ rw good v
        | inr bad ↦ rw bad v
      ]

  replied-Dispatched :
      (p : KademliaProtocol Cache) (now : ℕ) (msg : RpcMessage) (result : Bool → RpcMessage)
      (r : Reply Cache) (E : Type 0) (next : ForgetfulStorage)
      → Guarded p.storage E next r
      → (E → WriteAllowed p now msg)
      → IsTable r.after.router
      → RespondsTo msg (some (result r.ok))
      → Dispatched p now msg (replied result r)
  unfolding replied
  replied-Dispatched p now msg result r E next g allowed v responds = record {
    router_ok = v;
    guarded = elim g [ inl (_, same) ↦ inl same | inr (_, _, evidence) ↦ inr (allowed evidence) ];
    responds = responds;
  }

  rpc_leave-Left :
      (p : KademliaProtocol Cache) (sender_id : Bytes) (addr : Bytes × ℕ)
      → IsTable p.router
      → (source_of sender_id addr).long_id < 2 ^ 128
      → Returns
          (λ (q : KademliaProtocol Cache). IsTable q.router × (q.storage ≡ p.storage))
          (rpc_leave ops handler status_key p sender_id addr)
  unfolding rpc_leave leave_with
  rpc_leave-Left p sender_id addr v fits =
      let k = remove_contact-Keeps p.router (source_of sender_id addr) v fits in
      record {
        value = record p { router = k.value };
        result = ap (leave_with ops handler status_key p) k.result;
        holds = (k.table_ok, refl);
      }

-- A request of a peer that can be served: its sender can be welcomed, and the key that it looks up is
-- an identifier.
pub record CanServe {Cache : Type 0} (p : KademliaProtocol Cache) (addr : Bytes × ℕ)
    (msg : RpcMessage) : Type 0 where
  pub router_ok : IsTable p.router
  pub sender_ok : (s : Bytes) → sender msg ≡ some s → CanWelcome p (source_of s addr)
  pub key_ok : (k : Bytes) → looked_up msg ≡ some k → IsNodeId k

module _ {Cache : Type 0} (p : KademliaProtocol Cache) (now : ℕ) (source : Node) (key : Bytes)
    (v : IsNodeId key) where
  -- A search for a key, in the router after the source was welcomed.
  find_value_in-Found :
      (w : Welcome Cache) (o : Option Bytes)
      → Welcomed p now w
      → 0 < p.router.ksize
      → Returns
          (λ (r : Welcome Cache × FindValueResult).
            IsTable r.0.after.router × (r.0.after.storage ≡ p.storage))
          (find_value_in w now source key o)
  unfolding find_value_in
  find_value_in-Found w (some found) ok size =
      Returns-done _ _ (ok.router_ok, ap (λ q. q.storage) ok.only_router)
  find_value_in-Found w none ok size =
      Returns-and_then _ _ _ _
        (neighbors_of-SameTable now w.after.router (from_id key) (some source) ok.router_ok
          (omega (arith, size, ok.same_size)) (key_fits key v.sized v.bytes))
        (λ found same. Returns-done _ _ (same.table_ok, ap (λ q. q.storage) ok.only_router))

module _ {Cache : Type 0} (p : KademliaProtocol Cache) (now : ℕ) (s : Bytes) (addr : Bytes × ℕ)
    (k : Bytes) (source_ok : CanWelcome p (source_of s addr)) (key_id : IsNodeId k) where
  rpc_find_node-Found :
      Returns
        (λ (r : KademliaProtocol Cache × List Node). IsTable r.0.router × (r.0.storage ≡ p.storage))
        (rpc_find_node p now s addr k)
  unfolding rpc_find_node
  rpc_find_node-Found =
      Returns-and_then _ _ _ _
        (neighbors_of-SameTable now p.router (from_id k) (some (source_of s addr))
          source_ok.router_ok source_ok.capacity (key_fits k key_id.sized key_id.bytes))
        (λ found same. Returns-done _ _ (same.table_ok, refl))

  rpc_find_value-Found :
      Returns
        (λ (r : Welcome Cache × FindValueResult).
          IsTable r.0.after.router × (r.0.after.storage ≡ p.storage))
        (rpc_find_value p now s addr k)
  unfolding rpc_find_value
  rpc_find_value-Found =
      Returns-and_then _ _ _ _ (welcome_if_new-Welcomed p now (source_of s addr) source_ok)
        (λ w ok. find_value_in-Found p now (source_of s addr) k key_id w _ ok source_ok.capacity)

find_value-Responds :
    (s k : Bytes) (r : FindValueResult) → RespondsTo (find_value s k) (some (find_value_response r))
unfolding RespondsTo find_value_response
find_value-Responds s k (nodes ns) = inr (_, refl)
find_value-Responds s k (value v) = inl (v, refl)

module _ {Cache : Type 0} (ops : CacheOps Cache) (handler : SignatureVerifierHandler)
    (status_key : Bytes) where
  -- For a request that can be served, `dispatch_request` returns with the router in order. The store
  -- changes only where the request is authorised: for a new value by `verify_for_key`, for the others
  -- by what the handler says under the value that the key reads as. The response is of the request's
  -- kind, and there is none to a node that leaves or to a message that is no request.
  pub dispatch_request-Dispatched :
      (p : KademliaProtocol Cache) (now : ℕ) (addr : Bytes × ℕ) (msg : RpcMessage)
      → CanServe p addr msg
      → Returns
          (Dispatched ops handler status_key p now msg)
          (dispatch_request ops handler status_key p now addr msg)
  unfolding dispatch_request RespondsTo WriteAllowed sender looked_up ignored rpc_update
      rpc_update_status_list rpc_delete
  dispatch_request-Dispatched p now addr (ping s) can =
      Returns-done _ _
        (record { router_ok = can.router_ok; guarded = inl refl; responds = (_, refl) })
  dispatch_request-Dispatched p now addr (store s k v) can =
      let r =
        rpc_store-Stored ops handler status_key p now s addr k v can.router_ok
          (can.sender_ok s refl).fits in
      Returns-and_then (λ q. q ≡ r.reply) _ _ _
        (record { value = r.reply; result = r.result; holds = refl })
        (λ q e. Returns-done _ _ (
          subst
            (λ q. Dispatched ops handler status_key p now (store s k v) (replied store_result q))
            (sym e)
            (replied-Dispatched ops handler status_key p now _ store_result r.reply _ _ r.guarded
              (λ h. h) r.router_ok (_, refl))))
  dispatch_request-Dispatched p now addr (update s k v auth) can = Returns-done _ _ (
      replied-Dispatched ops handler status_key p now _ update_result _ _ _
        (rpc_update-Guarded ops handler status_key p now s addr k v auth) (λ h. h)
        (write_if-IsTable ops handler status_key p _ _ _ _ can.router_ok) (_, refl))
  dispatch_request-Dispatched p now addr (update_status_list s k v) can = Returns-done _ _ (
      replied-Dispatched ops handler status_key p now _ update_status_list_result _ _ _
        (rpc_update_status_list-Guarded ops handler status_key p now s addr k v) (λ h. h)
        (write_if-IsTable ops handler status_key p _ _ _ _ can.router_ok) (_, refl))
  dispatch_request-Dispatched p now addr (delete s k auth del) can = Returns-done _ _ (
      replied-Dispatched ops handler status_key p now _ delete_result _ _ _
        (rpc_delete-Guarded ops handler status_key p now s addr k auth del) (λ h. h)
        (write_if-IsTable ops handler status_key p _ _ _ _ can.router_ok) (_, refl))
  dispatch_request-Dispatched p now addr (find_node s k) can =
      Returns-and_then _ _ _ _
        (rpc_find_node-Found p now s addr k (can.sender_ok s refl) (can.key_ok k refl))
        (λ r (table_ok, same).
          Returns-done _ _
            (record { router_ok = table_ok; guarded = inl same; responds = (_, refl) }))
  dispatch_request-Dispatched p now addr (find_value s k) can =
      Returns-and_then _ _ _ _
        (rpc_find_value-Found p now s addr k (can.sender_ok s refl) (can.key_ok k refl))
        (λ r (table_ok, same). Returns-done _ _ (record {
          router_ok = table_ok;
          guarded = inl same;
          responds = find_value-Responds s k r.1;
        }))
  dispatch_request-Dispatched p now addr (leave s) can =
      Returns-and_then _ _ _ _
        (rpc_leave-Left ops handler status_key p s addr can.router_ok (can.sender_ok s refl).fits)
        (λ q (table_ok, same).
          Returns-done _ _ (record { router_ok = table_ok; guarded = inl same; responds = refl }))
  dispatch_request-Dispatched p now addr msg can =
      Returns-done _ _ (record { router_ok = can.router_ok; guarded = inl refl; responds = refl })
