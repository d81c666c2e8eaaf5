-- ===== src/Protocol/Message.antt =====
-- src/protocol.rs: the messages between peers, and the form that nodes take in them. Encoding a frame
-- to bytes is the serialisation library's.
use auth_kademlia.Prelude.{
  ℕ, ◌≡◌, refl, sym, ap, ◌∙◌, Bool, Option, List, [], ◌∷◌, map, All, length, ◌==◌, true,
}
use auth_kademlia.Prelude.Bytes.{Bytes}
use auth_kademlia.Node
use auth_kademlia.Node.{Node, IsNode, IsNodeId, id_len}
use auth_kademlia.Crawling.{Triple, decode_triples}

pub record WireNode : Type 0 where
  pub id : Bytes
  pub ip : Option Bytes
  pub port : Option ℕ

pub data RpcMessage : Type 0 where
  ping : Bytes → RpcMessage
  pong : Bytes → RpcMessage
  store : Bytes → Bytes → Bytes → RpcMessage
  store_result : Bool → RpcMessage
  update : Bytes → Bytes → Bytes → Bytes → RpcMessage
  update_result : Bool → RpcMessage
  update_status_list : Bytes → Bytes → Bytes → RpcMessage
  update_status_list_result : Bool → RpcMessage
  delete : Bytes → Bytes → Bytes → Bytes → RpcMessage
  delete_result : Bool → RpcMessage
  find_node : Bytes → Bytes → RpcMessage
  find_node_result : List WireNode → RpcMessage
  find_value : Bytes → Bytes → RpcMessage
  find_value_nodes : List WireNode → RpcMessage
  find_value_hit : Bytes → RpcMessage
  leave : Bytes → RpcMessage

pub record Frame : Type 0 where
  pub msg_id : ℕ
  pub is_request : Bool
  pub message : RpcMessage

-- `WireNode::from`, `Node::from`, and the triple that a lookup is given.
unfoldable pub to_wire : Node → WireNode
to_wire n = record { id = n.id; ip = n.ip; port = n.port }

unfoldable pub from_wire : WireNode → Node
from_wire w = Node.new w.id w.ip w.port

unfoldable pub to_triple : WireNode → Triple
to_triple w = (w.id, w.ip, w.port)

node_again : (n : Node) → IsNode n → Node.new n.id n.ip n.port ≡ n
unfolding Node.new
node_again n v = ap (λ l. record n { long_id = l }) (sym v.folded)

pub from_wire-to_wire : (n : Node) → IsNode n → from_wire (to_wire n) ≡ n
unfolding from_wire to_wire
from_wire-to_wire n v = node_again n v

-- Nodes as `Node::new` makes them, that one peer lists in an answer, are the nodes that a lookup
-- reads from it.
pub decode_triples-to_wire :
    (ns : List Node) → All IsNode ns → decode_triples (map to_triple (map to_wire ns)) ≡ ns
unfolding decode_triples to_triple to_wire
decode_triples-to_wire [] v = refl
decode_triples-to_wire (n ∷ ns) v =
    let sized : (length n.id == id_len) ≡ true = rw v.0.identifier.sized refl in
    rw (sized, decode_triples)
      (ap (λ m. m ∷ decode_triples (map to_triple (map to_wire ns))) (node_again n v.0)
        ∙ ap (◌∷◌ n) (decode_triples-to_wire ns v.1))
