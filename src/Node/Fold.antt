-- ===== src/Node/Fold.antt =====
-- `Node::id_to_u128`: 20 bytes folded into a `u128`.
use mathlib.Core.List.{append-nil, append_assoc}
use auth_kademlia.Prelude.{
  ℕ, ◌+◌, ◌*◌, ◌^◌, ◌<◌, bit_xor, ◌≡◌, ap, sym, ◌∙◌, [], ◌++◌, length, take, drop, All, replicate,
  arith, take-append_length, drop-append_length, length-append, length-take, length-drop, All-take,
  All-drop,
}
use auth_kademlia.Prelude.Bytes.{
  Bytes, IsByte, from_be_bytes, to_be_bytes, from_be_bytes-append, from_be_bytes_width,
  length-to_be_bytes, from_be_bytes-to_be_bytes,
}
use auth_kademlia.Prelude.Xor.{bit_xor_comm, bit_xor_fields, bit_xor-lt, bit_xor-zero}
use auth_kademlia.Node.{IsNodeId, id_to_u128}

module _ (head mid tail : Bytes) (h : length head ≡ 4) (m : length mid ≡ 12)
    (t : length tail ≡ 4) where
  low_part : take 16 (head ++ (mid ++ tail)) ≡ head ++ mid
  low_part =
      ap (take 16) (sym (append_assoc head mid tail))
      ∙ take-append_length (head ++ mid) tail 16 (omega (arith, length-append head mid))

  high_part : take 4 (drop 16 (head ++ (mid ++ tail))) ≡ tail
  high_part =
      ap (λ x. take 4 (drop 16 x)) (sym (append_assoc head mid tail))
      ∙ ap (take 4)
          (drop-append_length (head ++ mid) tail 16 (omega (arith, length-append head mid)))
      ∙ ap (take 4) (sym (append-nil tail))
      ∙ take-append_length tail [] 4 (omega arith)

  -- The fold is the exclusive or of the outer words above the middle bytes.
  fold_parts :
      All IsByte mid
      → id_to_u128 (head ++ (mid ++ tail))
        ≡ bit_xor (from_be_bytes head) (from_be_bytes tail) * 2 ^ 96 + from_be_bytes mid
  unfolding id_to_u128
  fold_parts bytes =
      rw (low_part, high_part, from_be_bytes-append head mid, m)
        (bit_xor_fields 96 (from_be_bytes head) (from_be_bytes tail) (from_be_bytes mid) small)
    where
      small : from_be_bytes mid < 2 ^ 96
      small = from_be_bytes_width 12 mid m bytes

-- The first and the last four bytes of an identifier can be swapped without a change of its fold,
-- so different identifiers share a `long_id`.
pub id_to_u128_swap :
    (head mid tail : Bytes)
    → length head ≡ 4
    → length mid ≡ 12
    → length tail ≡ 4
    → All IsByte mid
    → id_to_u128 (head ++ (mid ++ tail)) ≡ id_to_u128 (tail ++ (mid ++ head))
id_to_u128_swap head mid tail h m t bytes =
    fold_parts head mid tail h m t bytes
    ∙ (rw (bit_xor_comm (from_be_bytes head) (from_be_bytes tail))
        (sym (fold_parts tail mid head t m h bytes)))

-- The fold of an identifier is a `u128`.
pub id_to_u128-lt : (id : Bytes) → IsNodeId id → id_to_u128 id < 2 ^ 128
unfolding id_to_u128
id_to_u128-lt id v = bit_xor-lt 128 _ _ base_bound tail_bound
  where
    base_bound : from_be_bytes (take 16 id) < 2 ^ 128
    base_bound =
        from_be_bytes_width 16 (take 16 id) (omega (arith, length-take 16 id, v.sized))
          (All-take _ 16 id v.bytes)

    short : from_be_bytes (take 4 (drop 16 id)) < 2 ^ 32
    short =
        from_be_bytes_width 4 (take 4 (drop 16 id))
          (omega (arith, length-take 4 (drop 16 id), length-drop 16 id, v.sized))
          (All-take _ 4 (drop 16 id) (All-drop _ 16 id v.bytes))

    tail_bound : from_be_bytes (take 4 (drop 16 id)) * 2 ^ 96 < 2 ^ 128
    tail_bound = omega (arith, short)

-- An identifier made of a 128-bit number and four zero bytes folds back to that number.
pub id_to_u128-to_be_bytes :
    (r : ℕ) → r < 2 ^ 128 → id_to_u128 (to_be_bytes 16 r ++ replicate 4 0) ≡ r
unfolding id_to_u128 from_be_bytes
id_to_u128-to_be_bytes r h =
    rw
      (
        take-append_length (to_be_bytes 16 r) (replicate 4 0) 16
            (omega (arith, length-to_be_bytes 16 r)),
        drop-append_length (to_be_bytes 16 r) (replicate 4 0) 16
            (omega (arith, length-to_be_bytes 16 r)),
        from_be_bytes-to_be_bytes 16 r h,
      )
      (bit_xor-zero r)
