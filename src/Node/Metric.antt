-- ===== src/Node/Metric.antt =====
-- `Node::distance_to`: what of a metric the XOR distance on `long_id` has, and what it lacks.
use auth_kademlia.Prelude.{
  ℕ, ◌^◌, ◌<◌, bit_xor, ◌≡◌, ◌≢◌, ◌↔◌, ap, sym, ◌∙◌, ◌++◌, length, take, All, take-append_length,
}
use auth_kademlia.Prelude.Bytes.{Bytes, IsByte}
use auth_kademlia.Prelude.Xor.{
  bit_xor_comm, bit_xor_assoc, bit_xor_self, zero-bit_xor, eq_of_bit_xor-zero, bit_xor-lt,
}
use auth_kademlia.Node.{Node, IsNode, from_id, new, distance_to}
use auth_kademlia.Node.Fold.{id_to_u128_swap, id_to_u128-lt}

pub long_id-lt : (n : Node) → IsNode n → n.long_id < 2 ^ 128
long_id-lt n v = rw v.folded (id_to_u128-lt n.id v.identifier)

pub distance_to-lt : (a b : Node) → IsNode a → IsNode b → distance_to a b < 2 ^ 128
unfolding distance_to
distance_to-lt a b v w = bit_xor-lt 128 a.long_id b.long_id (long_id-lt a v) (long_id-lt b w)

xor-cancel : (a b : ℕ) → bit_xor a (bit_xor a b) ≡ b
xor-cancel a b = sym (bit_xor_assoc a a b) ∙ (rw bit_xor_self (zero-bit_xor b))

-- The distance is symmetric, it is 0 exactly between nodes of one `long_id`, the way from `a` to
-- `c` is composed of the ways by `b`, and from `a` only one `long_id` is at a distance.
pub distance_to_metric :
    (a b c : Node)
    → (distance_to a b ≡ distance_to b a)
      × ((distance_to a b ≡ 0) ↔ (a.long_id ≡ b.long_id))
      × (distance_to a c ≡ bit_xor (distance_to a b) (distance_to b c))
      × ((distance_to a b ≡ distance_to a c) ↔ (b.long_id ≡ c.long_id))
unfolding distance_to
distance_to_metric a b c = (
  bit_xor_comm a.long_id b.long_id,
  (eq_of_bit_xor-zero a.long_id b.long_id, λ e. rw e (bit_xor_self b.long_id)),
  sym (
      bit_xor_assoc a.long_id b.long_id (bit_xor b.long_id c.long_id)
      ∙ ap (bit_xor a.long_id) (xor-cancel b.long_id c.long_id)),
  (
    λ e.
        sym (xor-cancel a.long_id b.long_id)
        ∙ ap (bit_xor a.long_id) e
        ∙ xor-cancel a.long_id c.long_id,
    λ e. ap (bit_xor a.long_id) e,
  ),
)

-- Two nodes whose identifiers differ by a swap of the first and the last four bytes, and these
-- differ, are different nodes at distance 0.
pub distance_to_collision :
    (head mid tail : Bytes)
    → length head ≡ 4
    → length mid ≡ 12
    → length tail ≡ 4
    → All IsByte mid
    → head ≢ tail
    → let a = from_id (head ++ (mid ++ tail)) in
      let b = from_id (tail ++ (mid ++ head)) in (a.id ≢ b.id) × (distance_to a b ≡ 0)
unfolding distance_to from_id new
distance_to_collision head mid tail h m t bytes ne = (
  λ e. ne (
      sym (take-append_length head (mid ++ tail) 4 (sym h))
      ∙ ap (take 4) e
      ∙ take-append_length tail (mid ++ head) 4 (sym t)),
  rw (id_to_u128_swap head mid tail h m t bytes) (bit_xor_self _),
)
