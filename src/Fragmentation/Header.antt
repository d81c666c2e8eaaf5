-- ===== src/Fragmentation/Header.antt =====
-- `parse_fragment` reads back the header that `encode_fragments` writes.
use native.Mathlib.Omega.{arith}
use auth_kademlia.Prelude.{
  ℕ, ◌+◌, ◌^◌, ◌<◌, ◌≡◌, ap, sym, ◌∙◌, some, ◌++◌, length, take, drop, length-append,
  take-append_length, drop-append_length, drop-drop,
}
use auth_kademlia.Prelude.Bytes.{
  Bytes, from_be_bytes, to_be_bytes, length-to_be_bytes, from_be_bytes-to_be_bytes,
}
use auth_kademlia.Fragmentation.{frag_magic, datagram, parse_fragment}

module _ (frag_id index total : ℕ) (chunk : Bytes) where
  abbrev dg : Bytes
  dg = datagram frag_id index total chunk

  drop_four :
      drop 4 dg ≡ to_be_bytes 4 frag_id ++ (to_be_bytes 2 index ++ (to_be_bytes 2 total ++ chunk))
  unfolding datagram
  drop_four =
      drop-append_length (to_be_bytes 4 frag_magic) _ 4 (sym (length-to_be_bytes 4 frag_magic))

  drop_eight : drop 8 dg ≡ to_be_bytes 2 index ++ (to_be_bytes 2 total ++ chunk)
  drop_eight =
      sym (drop-drop 4 4 dg)
      ∙ ap (drop 4) drop_four
      ∙ drop-append_length (to_be_bytes 4 frag_id) _ 4 (sym (length-to_be_bytes 4 frag_id))

  drop_ten : drop 10 dg ≡ to_be_bytes 2 total ++ chunk
  drop_ten =
      sym (drop-drop 8 2 dg)
      ∙ ap (drop 2) drop_eight
      ∙ drop-append_length (to_be_bytes 2 index) _ 2 (sym (length-to_be_bytes 2 index))

  drop_twelve : drop 12 dg ≡ chunk
  drop_twelve =
      sym (drop-drop 10 2 dg)
      ∙ ap (drop 2) drop_ten
      ∙ drop-append_length (to_be_bytes 2 total) chunk 2 (sym (length-to_be_bytes 2 total))

  -- The field of `w` bytes in front of `rest`.
  field :
      (w v : ℕ) (rest : Bytes) → v < 256 ^ w → from_be_bytes (take w (to_be_bytes w v ++ rest)) ≡ v
  field w v rest h =
      rw (take-append_length (to_be_bytes w v) rest w (sym (length-to_be_bytes w v)))
        (from_be_bytes-to_be_bytes w v h)

  magic_field : from_be_bytes (take 4 dg) ≡ frag_magic
  unfolding datagram
  magic_field = field 4 frag_magic _ (omega arith)

  pub length-datagram : length dg ≡ 12 + length chunk
  unfolding datagram
  length-datagram = omega (
    arith,
    length-append (to_be_bytes 4 frag_magic)
        (to_be_bytes 4 frag_id ++ (to_be_bytes 2 index ++ (to_be_bytes 2 total ++ chunk))),
    length-append (to_be_bytes 4 frag_id) (to_be_bytes 2 index ++ (to_be_bytes 2 total ++ chunk)),
    length-append (to_be_bytes 2 index) (to_be_bytes 2 total ++ chunk),
    length-append (to_be_bytes 2 total) chunk,
    length-to_be_bytes,
  )

  -- A datagram with a 32-bit `frag_id`, a 16-bit `total` and an `index` below it is parsed to these
  -- fields and its chunk.
  pub parse_fragment-datagram :
      frag_id < 2 ^ 32
      → index < total
      → total < 2 ^ 16
      → parse_fragment dg ≡ some (record { frag_id = frag_id; index = index; total = total }, chunk)
  unfolding parse_fragment
  parse_fragment-datagram f i t = ground (
    arith,
    length-datagram,
    magic_field,
    ap (λ x. from_be_bytes (take 4 x)) drop_four,
    ap (λ x. from_be_bytes (take 2 x)) drop_eight,
    ap (λ x. from_be_bytes (take 2 x)) drop_ten,
    drop_twelve,
    field 4 frag_id (to_be_bytes 2 index ++ (to_be_bytes 2 total ++ chunk)) f,
    field 2 index (to_be_bytes 2 total ++ chunk) (omega arith),
    field 2 total chunk t,
  )
