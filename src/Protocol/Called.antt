-- ===== src/Protocol/Called.antt =====
-- What the calls of other peers do to the state, and what their results stand for.
use auth_kademlia.Prelude.{
  ℕ, ◌^◌, ◌<◌, ◌≡◌, refl, ap, inl, inr, Bool, true, false, Option, none, some, List, [], ◌∷◌, map,
  All, arith, Bool-cases,
}
use auth_kademlia.Prelude.Bytes.{Bytes}
use auth_kademlia.Node.{Node, IsNode, address}
use auth_kademlia.Routing.Table.{RoutingTable, done, remove_contact}
use auth_kademlia.Routing.Table.Place.{IsTable}
use auth_kademlia.Routing.Table.Operations.{remove_contact-Keeps}
use auth_kademlia.Crawling.{RawResponse, get_node_list}
use auth_kademlia.Protocol.{KademliaProtocol}
use auth_kademlia.Protocol.Chain.{and_then, Returns, Returns-done}
use auth_kademlia.Protocol.Message.{
  RpcMessage, store, update, update_status_list, delete, find_node, find_node_result, find_value,
  to_wire, decode_triples-to_wire,
}
use auth_kademlia.Protocol.Calls.{
  Called, or_remove, call_at, call_store_rpc, call_update_rpc, call_status_list_update_rpc,
  call_delete_rpc, call_find_node, call_find_value, read_store_result, read_update_result,
  read_status_result, read_delete_result, read_find_node, read_find_value, no_response, to_response,
}

-- How a call ended: nothing was sent, the response was read, or the peer was removed for the lack
-- of one.
pub data Ending {Cache A : Type 0} (parses : Bytes × ℕ → Bool)
    (answer : Bytes × ℕ → RpcMessage → Option RpcMessage) (p : KademliaProtocol Cache) (peer : Node)
    (message : RpcMessage) (read : Option RpcMessage → Option A) (failed : A)
    : Called Cache A → Type 0 where
  unsent :
      ((addr : Bytes × ℕ) → address peer ≡ some addr → parses addr ≡ false)
      → Ending parses answer p peer message read failed (p, failed)
  answered :
      (addr : Bytes × ℕ) (a : A)
      → address peer ≡ some addr
      → read (answer addr message) ≡ some a
      → Ending parses answer p peer message read failed (p, a)
  removed :
      (addr : Bytes × ℕ) (t : RoutingTable)
      → address peer ≡ some addr
      → read (answer addr message) ≡ none
      → remove_contact p.router peer ≡ done t
      → Ending parses answer p peer message read failed (record p { router = t }, failed)

module _ {Cache : Type 0} (parses : Bytes × ℕ → Bool)
    (answer : Bytes × ℕ → RpcMessage → Option RpcMessage) (p : KademliaProtocol Cache) (peer : Node)
    (v : IsTable p.router) (fits : peer.long_id < 2 ^ 128) where
  -- A call that returns with the router in order, after one of the endings.
  pub record Ends {A : Type 0} (message : RpcMessage) (read : Option RpcMessage → Option A)
      (failed : A) (r : Called Cache A) : Type 0 where
    pub router_ok : IsTable r.0.router
    pub ending : Ending parses answer p peer message read failed r

  module _ {A : Type 0} (message : RpcMessage) (read : Option RpcMessage → Option A)
      (failed : A) where
    or_remove-Ends :
        (addr : Bytes × ℕ) (o : Option A)
        → address peer ≡ some addr
        → read (answer addr message) ≡ o
        → Returns (Ends message read failed) (or_remove parses answer p peer failed o)
    unfolding or_remove and_then
    or_remove-Ends addr (some a) at e =
        Returns-done _ _ (record { router_ok = v; ending = answered addr a at e })
    or_remove-Ends addr none at e =
        let k = remove_contact-Keeps p.router peer v fits in
        record {
          value = (record p { router = k.value }, failed);
          result = ap (λ o. and_then o (λ t. done (record p { router = t }, failed))) k.result;
          holds = record { router_ok = k.table_ok; ending = removed addr k.value at e k.result };
        }

    call_at-Ends :
        (o : Option (Bytes × ℕ))
        → address peer ≡ o
        → Returns (Ends message read failed) (call_at parses answer p peer message read failed o)
    unfolding call_at
    call_at-Ends none at =
        Returns-done _ _
          (record { router_ok = v; ending = unsent (λ addr h. absurd (ground (arith, at))) })
    call_at-Ends (some addr) at = elim (Bool-cases (parses addr)) [
      | inl good ↦ rw good (or_remove-Ends addr (read (answer addr message)) at refl)
      | inr bad ↦ rw bad (
          Returns-done _ _
            (record { router_ok = v; ending = unsent (λ a h. ground (arith, at, bad)) }))
    ]

  pub write_calls-Ends :
      (key value auth_signature delete_msg : Bytes)
      → Returns
          (Ends (store p.source_node.id key value) read_store_result false)
          (call_store_rpc parses answer p peer key value)
        × Returns
            (Ends (update p.source_node.id key value auth_signature) read_update_result false)
            (call_update_rpc parses answer p peer key value auth_signature)
        × Returns
            (Ends (update_status_list p.source_node.id key value) read_status_result false)
            (call_status_list_update_rpc parses answer p peer key value)
        × Returns
            (Ends (delete p.source_node.id key auth_signature delete_msg) read_delete_result false)
            (call_delete_rpc parses answer p peer key auth_signature delete_msg)
  unfolding call_store_rpc call_update_rpc call_status_list_update_rpc call_delete_rpc
  write_calls-Ends key value auth_signature delete_msg = (
    call_at-Ends _ _ false (address peer) refl,
    call_at-Ends _ _ false (address peer) refl,
    call_at-Ends _ _ false (address peer) refl,
    call_at-Ends _ _ false (address peer) refl,
  )

  pub find_calls-Ends :
      (target : Node)
      → Returns
          (Ends (find_node p.source_node.id target.id) (read_find_node peer) no_response)
          (call_find_node parses answer p peer target)
        × Returns
            (Ends (find_value p.source_node.id target.id) (read_find_value peer) no_response)
            (call_find_value parses answer p peer target)
  unfolding call_find_node call_find_value
  find_calls-Ends target = (
    call_at-Ends _ _ no_response (address peer) refl,
    call_at-Ends _ _ no_response (address peer) refl,
  )

module _ {Cache : Type 0} (parses : Bytes × ℕ → Bool)
    (answer : Bytes × ℕ → RpcMessage → Option RpcMessage) where
  -- A call of a peer, at an address that parses, which answers with a list of nodes as `Node::new`
  -- makes them, hands the lookup these nodes in this order, and leaves the state as it is.
  pub call_find_node-listed :
      (p : KademliaProtocol Cache) (peer target : Node) (addr : Bytes × ℕ) (ns : List Node)
      → address peer ≡ some addr
      → parses addr ≡ true
      → answer addr (find_node p.source_node.id target.id)
        ≡ some (find_node_result (map to_wire ns))
      → All IsNode ns
      → (raw : RawResponse) × (call_find_node parses answer p peer target
          ≡ done (p, (raw, peer ∷ [])))
        × (raw.happened ≡ true)
        × (get_node_list raw ≡ ns)
  unfolding call_find_node call_at or_remove read_find_node to_response get_node_list
  call_find_node-listed p peer target addr ns at good reply v = (
    to_response (map to_wire ns),
    rw (at, call_at, good, reply) refl,
    refl,
    decode_triples-to_wire ns v,
  )
