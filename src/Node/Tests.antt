-- ===== src/Node/Tests.antt =====
-- Identifiers and distances on small inputs.
use auth_kademlia.Prelude.{◌≡◌, ◌≢◌, ◌↔◌, bit_xor, refl, [], ◌∷◌, ◌++◌, replicate, arith}
use auth_kademlia.Prelude.Bytes.{Bytes}
use auth_kademlia.Node.{Node, from_id, distance_to}
use auth_kademlia.Node.Metric.{distance_to_metric, distance_to_collision}

abbrev zeros : Bytes
zeros = replicate 20 0

abbrev node_a : Node
node_a = from_id (1 ∷ replicate 19 0)

abbrev node_b : Node
node_b = from_id (replicate 15 0 ++ 1 ∷ replicate 4 0)

abbrev node_c : Node
node_c = from_id (replicate 20 255)

distance_to_metric_example :
    (distance_to node_a node_b ≡ distance_to node_b node_a)
    × ((distance_to node_a node_b ≡ 0) ↔ (node_a.long_id ≡ node_b.long_id))
    × (distance_to node_a node_c ≡ bit_xor (distance_to node_a node_b) (distance_to node_b node_c))
    × ((distance_to node_a node_b ≡ distance_to node_a node_c) ↔ (node_b.long_id ≡ node_c.long_id))
distance_to_metric_example = distance_to_metric node_a node_b node_c

distance_to_collision_example :
    ((from_id (1 ∷ 2 ∷ 3 ∷ 4 ∷ (replicate 12 9 ++ replicate 4 0))).id
      ≢ (from_id (replicate 4 0 ++ (replicate 12 9 ++ 1 ∷ 2 ∷ 3 ∷ 4 ∷ []))).id)
    × (distance_to
          (from_id (1 ∷ 2 ∷ 3 ∷ 4 ∷ (replicate 12 9 ++ replicate 4 0)))
          (from_id (replicate 4 0 ++ (replicate 12 9 ++ 1 ∷ 2 ∷ 3 ∷ 4 ∷ [])))
        ≡ 0)
distance_to_collision_example =
    distance_to_collision (1 ∷ 2 ∷ 3 ∷ 4 ∷ []) (replicate 12 9) (replicate 4 0) refl refl refl
      (ground arith) (λ e. ground arith)
