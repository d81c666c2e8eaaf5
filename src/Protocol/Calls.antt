-- ===== src/Protocol/Calls.antt =====
-- src/protocol.rs: the calls of other peers. What `call` gives for an address and a request is the
-- function `answer`: the response with the request's number, or nothing after a failure or the
-- timeout. `parses` says whether the text of an address parses as a `SocketAddr`.
use auth_kademlia.Prelude.{
  ℕ, Bool, true, false, not, Option, none, some, List, [], ◌∷◌, map, if◌then◌else◌,
}
use auth_kademlia.Prelude.Bytes.{Bytes}
use auth_kademlia.Node.{Node, address}
use auth_kademlia.Routing.Table.{Outcome, done, remove_contact}
use auth_kademlia.Crawling.{RawResponse, payload_nodes, payload_value, payload_empty}
use auth_kademlia.Protocol.{KademliaProtocol}
use auth_kademlia.Protocol.Chain.{and_then}
use auth_kademlia.Protocol.Message.{
  RpcMessage, ping, pong, store, store_result, update, update_result, update_status_list,
  update_status_list_result, delete, delete_result, find_node, find_node_result, find_value,
  find_value_nodes, find_value_hit, leave, to_triple, WireNode,
}

-- What the callers read from a response.
unfoldable pub read_pong : Option RpcMessage → Bool × Bytes
read_pong (some (pong sender_id)) = (true, sender_id)
read_pong _ = (false, [])

unfoldable pub read_store_result : Option RpcMessage → Option Bool
read_store_result (some (store_result ok)) = some ok
read_store_result _ = none

unfoldable pub read_update_result : Option RpcMessage → Option Bool
read_update_result (some (update_result ok)) = some ok
read_update_result _ = none

unfoldable pub read_status_result : Option RpcMessage → Option Bool
read_status_result (some (update_status_list_result ok)) = some ok
read_status_result _ = none

unfoldable pub read_delete_result : Option RpcMessage → Option Bool
read_delete_result (some (delete_result ok)) = some ok
read_delete_result _ = none

unfoldable pub to_response : List WireNode → RawResponse
to_response ns = record { happened = true; payload = payload_nodes (map to_triple ns) }

-- What a lookup is given, with the node that is handed to `welcome_if_new`.
abbrev pub Findings : Type 0
Findings = RawResponse × List Node

abbrev pub no_response : Findings
no_response = (record { happened = false; payload = payload_empty }, [])

unfoldable pub read_find_node : Node → Option RpcMessage → Option Findings
unfolding to_response
read_find_node peer (some (find_node_result ns)) = some (to_response ns, peer ∷ [])
read_find_node peer _ = none

unfoldable pub read_find_value : Node → Option RpcMessage → Option Findings
unfolding to_response
read_find_value peer (some (find_value_hit v)) =
    some (record { happened = true; payload = payload_value v }, peer ∷ [])
read_find_value peer (some (find_value_nodes ns)) = some (to_response ns, peer ∷ [])
read_find_value peer _ = none

-- The state after a call, and its result.
abbrev pub Called : Type 0 → Type 0 → Type 0
Called Cache A = KademliaProtocol Cache × A

module _ {Cache : Type 0} (parses : Bytes × ℕ → Bool)
    (answer : Bytes × ℕ → RpcMessage → Option RpcMessage) where
  -- A peer whose response is not the expected one leaves the router.
  unfoldable pub or_remove :
      {A : Type 0} → KademliaProtocol Cache → Node → A → Option A → Outcome (Called Cache A)
  or_remove p peer failed (some a) = done (p, a)
  or_remove p peer failed none =
      and_then (remove_contact p.router peer) (λ t. done (record p { router = t }, failed))

  -- A call at the address of a peer: without one, or with one that does not parse, nothing is sent.
  unfoldable pub call_at :
      {A : Type 0}
      → KademliaProtocol Cache
      → Node
      → RpcMessage
      → (Option RpcMessage → Option A)
      → A
      → Option (Bytes × ℕ)
      → Outcome (Called Cache A)
  unfolding or_remove
  call_at p peer message read failed none = done (p, failed)
  call_at p peer message read failed (some addr) =
      if not (parses addr)
      then done (p, failed)
      else or_remove p peer failed (read (answer addr message))

  unfoldable pub call_store_rpc :
      KademliaProtocol Cache → Node → Bytes → Bytes → Outcome (Called Cache Bool)
  unfolding call_at
  call_store_rpc p peer key value =
      call_at p peer (store p.source_node.id key value) read_store_result false (address peer)

  unfoldable pub call_update_rpc :
      KademliaProtocol Cache → Node → Bytes → Bytes → Bytes → Outcome (Called Cache Bool)
  call_update_rpc p peer key value auth_signature =
      call_at p peer (update p.source_node.id key value auth_signature) read_update_result false
        (address peer)

  unfoldable pub call_status_list_update_rpc :
      KademliaProtocol Cache → Node → Bytes → Bytes → Outcome (Called Cache Bool)
  call_status_list_update_rpc p peer key value =
      call_at p peer (update_status_list p.source_node.id key value) read_status_result false
        (address peer)

  unfoldable pub call_delete_rpc :
      KademliaProtocol Cache → Node → Bytes → Bytes → Bytes → Outcome (Called Cache Bool)
  call_delete_rpc p peer key auth_signature delete_msg =
      call_at p peer (delete p.source_node.id key auth_signature delete_msg) read_delete_result
        false (address peer)

  unfoldable pub call_find_node :
      KademliaProtocol Cache → Node → Node → Outcome (Called Cache Findings)
  call_find_node p peer target =
      call_at p peer (find_node p.source_node.id target.id) (read_find_node peer) no_response
        (address peer)

  unfoldable pub call_find_value :
      KademliaProtocol Cache → Node → Node → Outcome (Called Cache Findings)
  call_find_value p peer target =
      call_at p peer (find_value p.source_node.id target.id) (read_find_value peer) no_response
        (address peer)

  unfoldable pub call_ping_addr : KademliaProtocol Cache → Bytes × ℕ → Bool × Bytes
  call_ping_addr p addr =
      if parses addr then read_pong (answer addr (ping p.source_node.id)) else (false, [])

  unfoldable pub ping_at :
      KademliaProtocol Cache → Node → Option (Bytes × ℕ) → Outcome (KademliaProtocol Cache)
  unfolding call_ping_addr
  ping_at p node none = done p
  ping_at p node (some addr) =
      if not (call_ping_addr p addr).0
      then and_then (remove_contact p.router node) (λ t. done (record p { router = t }))
      else done p

  unfoldable pub call_ping_node : KademliaProtocol Cache → Node → Outcome (KademliaProtocol Cache)
  unfolding ping_at
  call_ping_node p node = ping_at p node (address node)

  -- What is sent to a neighbour on leaving: the answer is not read.
  unfoldable pub call_leave_rpc : KademliaProtocol Cache → Node → Option ((Bytes × ℕ) × RpcMessage)
  call_leave_rpc p peer = elim (address peer) [
    | none ↦ none
    | some addr ↦ if parses addr then some (addr, leave p.source_node.id) else none
  ]
