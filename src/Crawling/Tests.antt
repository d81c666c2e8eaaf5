-- ===== src/Crawling/Tests.antt =====
-- Lookups in a network of two nodes: the first names the second, which holds a value.
use mathlib.Core.List.Perm
use auth_kademlia.Prelude.{
  inl, inr, true, none, List, [], ◌∷◌, replicate, All, any, arith, Bool-cases, if◌then◌else◌,
}
use auth_kademlia.Prelude.Bytes.{Bytes, from_be_bytes}
use auth_kademlia.Node
use auth_kademlia.Node.{Node, same_id, from_id, id_to_u128}
use auth_kademlia.NodeHeap
use auth_kademlia.Crawling.{
  RawResponse, payload_nodes, payload_value, new, node_find, new_value, value_find, majority,
  get_node_list, get_value, decode_triples,
}
use auth_kademlia.Crawling.Contacts.{IsKnown, IsPeer}
use auth_kademlia.Crawling.NodeLookup.{IsNetwork, FindsNodes, node_find-FindsNodes}
use auth_kademlia.Crawling.Majority.{IsMajority, majority-IsMajority}
use auth_kademlia.Crawling.ValueRounds.{Passes, Ends}
use auth_kademlia.Crawling.ValueLookup.{value_find-Ends}

abbrev id_a : Bytes
id_a = replicate 20 1

abbrev id_b : Bytes
id_b = replicate 20 2

abbrev target : Node
target = from_id (replicate 20 3)

abbrev all_ids : List Bytes
all_ids = id_a ∷ id_b ∷ []

abbrev names_b : RawResponse
names_b = record { happened = true; payload = payload_nodes ((id_b, none, none) ∷ []) }

abbrev holds_value : RawResponse
holds_value = record { happened = true; payload = payload_value (7 ∷ []) }

abbrev respond : Node → RawResponse
respond n = if same_id n.id id_a then names_b else holds_value

IsKnown-head : (id : Bytes) (us : List Bytes) → IsKnown (id ∷ us) id
unfolding any
IsKnown-head id us = ground arith

IsKnown-tail : (id u : Bytes) (us : List Bytes) → IsKnown us id → IsKnown (u ∷ us) id
unfolding any
IsKnown-tail id u us h = ground arith

b-IsKnown : IsKnown all_ids id_b
b-IsKnown = IsKnown-tail id_b id_a (id_b ∷ []) (IsKnown-head id_b [])

a_from_id : IsPeer all_ids (Node.from_id id_a)
unfolding Node.from_id Node.new id_to_u128 from_be_bytes
a_from_id = (IsKnown-head id_a (id_b ∷ []), omega arith)

names_b-known : All (IsPeer all_ids) (get_node_list names_b)
unfolding get_node_list decode_triples Node.new id_to_u128 from_be_bytes
names_b-known = ((b-IsKnown, omega arith), tt)

network : IsNetwork all_ids respond (λ rs. rs)
network = record {
  named = λ n. elim (Bool-cases (same_id n.id id_a)) [
    | inl e ↦ rw e names_b-known
    | inr e ↦ unfold get_node_list in (rw e tt)
  ];
  ordered = λ rs. Perm.rfl;
}

values-Passes : (n : Node) → Passes (same_id (7 ∷ [])) (respond n)
unfolding get_value
values-Passes n v e = elim (Bool-cases (same_id n.id id_a)) [
  | inl first ↦ absurd (ground arith)
  | inr second ↦ ground arith
]

node_find-FindsNodes_example :
    FindsNodes all_ids
      (NodeHeap.new target 4)
      (node_find respond (λ rs. rs) 3 (new target (Node.from_id id_a ∷ []) 4 2))
node_find-FindsNodes_example =
    node_find-FindsNodes all_ids respond (λ rs. rs) network target (Node.from_id id_a ∷ []) 4 2 3
      (omega arith) (a_from_id, tt) (omega arith)

value_find-Ends_example :
    Ends respond
      (λ rs. rs)
      (λ es. es)
      all_ids
      (same_id (7 ∷ []))
      (NodeHeap.new target 4)
      (new_value target (Node.from_id id_a ∷ []) 4 2)
      (value_find respond (λ rs. rs) (λ es. es) 3 (new_value target (Node.from_id id_a ∷ []) 4 2))
value_find-Ends_example =
    value_find-Ends all_ids respond (λ rs. rs) (λ es. es) network (λ es. Perm.rfl)
      (same_id (7 ∷ [])) values-Passes target (Node.from_id id_a ∷ []) 4 2 3 (omega arith)
      (a_from_id, tt) (omega arith)

majority-IsMajority_example :
    IsMajority
      ((7 ∷ []) ∷ (8 ∷ []) ∷ (7 ∷ []) ∷ [])
      (majority respond (λ rs. rs) (λ es. es) ((7 ∷ []) ∷ (8 ∷ []) ∷ (7 ∷ []) ∷ []))
majority-IsMajority_example =
    majority-IsMajority respond (λ rs. rs) (λ es. es) (λ es. Perm.rfl) (7 ∷ [])
      ((8 ∷ []) ∷ (7 ∷ []) ∷ [])
