-- ===== src/Node.antt =====
-- src/node.rs: `Node`, its 160-bit identifier and the 128-bit number that distances are taken on.
pub mod Fold
pub mod Metric
mod Tests
use auth_kademlia.Prelude.{
  ℕ, ◌*◌, ◌^◌, bit_xor, ◌≡◌, Bool, true, false, ◌&&◌, Option, none, some, length, take, drop, All,
  ite, ℕ_discrete,
}
use auth_kademlia.Prelude.Bytes.{Bytes, IsByte, bytes_eq, from_be_bytes}

abbrev pub id_len : ℕ
id_len = 20

-- `[u8; ID_LEN]`.
pub record IsNodeId (id : Bytes) : Type 0 where
  pub sized : length id ≡ id_len
  pub bytes : All IsByte id

-- A `String` is its bytes.
pub record Node : Type 0 where
  pub id : Bytes
  pub ip : Option Bytes
  pub port : Option ℕ
  pub long_id : ℕ

unfoldable pub id_to_u128 : Bytes → ℕ
id_to_u128 id =
    let base = from_be_bytes (take 16 id) in
    let tail = from_be_bytes (take 4 (drop 16 id)) in bit_xor base (tail * 2 ^ 96)

unfoldable pub new : Bytes → Option Bytes → Option ℕ → Node
new id ip port = record { id = id; ip = ip; port = port; long_id = id_to_u128 id }

unfoldable pub from_id : Bytes → Node
unfolding new
from_id id = new id none none

unfoldable pub distance_to : Node → Node → ℕ
distance_to n other = bit_xor n.long_id other.long_id

-- `==` on identifiers.
abbrev pub same_id : Bytes → Bytes → Bool
same_id a b = ite (bytes_eq a b) true false

ip_eq : Discrete (Option Bytes)
unfolding bytes_eq
ip_eq = hlevel bytes_eq

port_eq : Discrete (Option ℕ)
unfolding ℕ_discrete
port_eq = hlevel ℕ_discrete

unfoldable pub same_home_as : Node → Node → Bool
unfolding ip_eq port_eq
same_home_as n other =
    ite (ip_eq n.ip other.ip) true false && ite (port_eq n.port other.port) true false

unfoldable pub address : Node → Option (Bytes × ℕ)
address n = elim n.ip [
  | none ↦ none
  | some ip ↦ elim n.port [ none ↦ none | some port ↦ some (ip, port) ]
]

-- What `Node::new` establishes: a 20-byte identifier, and its folding in `long_id`.
pub record IsNode (n : Node) : Type 0 where
  pub identifier : IsNodeId n.id
  pub folded : n.long_id ≡ id_to_u128 n.id
