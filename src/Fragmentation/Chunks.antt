-- ===== src/Fragmentation/Chunks.antt =====
-- The pieces that `encode_fragments` cuts a payload into.
use mathlib.Core.List.{flatten}
use auth_kademlia.Prelude.{
  ℕ, zero, suc, ◌*◌, ◌%◌, ◌^◌, ◌≤◌, ◌<◌, ◌≡◌, refl, ap, ◌∙◌, List, [], ◌∷◌, ◌++◌, length, take,
  drop, All, arith, take-append-drop, take_of_length-le, length-drop, length-take,
}
use auth_kademlia.Prelude.Bytes.{Bytes}
use auth_kademlia.Fragmentation.{
  frag_chunk_size, max_message_size, div_ceil, chunks_of, datagram, encode_loop, encode_fragments,
}

pub length-chunks_of : (size n : ℕ) (p : Bytes) → length (chunks_of size n p) ≡ n
unfolding chunks_of
length-chunks_of size zero p = refl
length-chunks_of size (suc n) p = ap suc (length-chunks_of size n (drop size p))

-- The pieces put together are the payload, if there are enough of them.
pub flatten-chunks_of :
    (size n : ℕ) (p : Bytes) → length p ≤ n * size → flatten (chunks_of size n p) ≡ p
unfolding chunks_of flatten
flatten-chunks_of size zero [] h = refl
flatten-chunks_of size zero (b ∷ p) h = absurd (omega arith)
flatten-chunks_of size (suc n) p h =
    ap (◌++◌ (take size p))
      (flatten-chunks_of size n (drop size p) (omega (arith, length-drop size p)))
    ∙ take-append-drop size p

pub chunks_of-le : (size n : ℕ) (p : Bytes) → All (λ c. length c ≤ size) (chunks_of size n p)
unfolding chunks_of
chunks_of-le size zero p = tt
chunks_of-le size (suc n) p = (omega (arith, length-take size p), chunks_of-le size n (drop size p))

pub fragment_count : Bytes → ℕ
fragment_count p = div_ceil (length p) frag_chunk_size

pub fragments : Bytes → List Bytes
unfolding fragment_count
fragments p = chunks_of frag_chunk_size (fragment_count p) p

pub flatten-fragments : (p : Bytes) → flatten (fragments p) ≡ p
unfolding fragments
flatten-fragments p = flatten-chunks_of frag_chunk_size _ p (omega arith)

pub length-fragments : (p : Bytes) → length (fragments p) ≡ fragment_count p
unfolding fragments
length-fragments p = length-chunks_of frag_chunk_size (fragment_count p) p

-- A payload of 187 pieces at most, the most that a receiver accepts.
pub fragment_count-bounds :
    (p : Bytes)
    → frag_chunk_size < length p
    → length p ≤ 187 * frag_chunk_size
    → (2 ≤ fragment_count p) × (fragment_count p ≤ 187)
unfolding fragment_count
fragment_count-bounds p lo hi = (omega arith, omega arith)

-- The datagrams carry the pieces, in order, while their count fits a `u16`.
pub encode_fragments-fragments :
    (frag_id : ℕ) (p : Bytes)
    → 0 < length p
    → fragment_count p < 2 ^ 16
    → encode_fragments frag_id p ≡ encode_loop frag_id (fragment_count p) 0 (fragments p)
unfolding encode_fragments fragments fragment_count
encode_fragments-fragments frag_id [] h k = absurd (omega arith)
encode_fragments-fragments frag_id (b ∷ bs) h k =
    let count = div_ceil (length (b ∷ bs)) frag_chunk_size in
    let e : count % 2 ^ 16 ≡ count = omega arith in
    ap (λ n. encode_loop frag_id n 0 (chunks_of frag_chunk_size count (b ∷ bs))) e

pub fragment_count-le : (p : Bytes) → length p ≤ max_message_size → fragment_count p ≤ 188
unfolding fragment_count
fragment_count-le p h = omega arith

pub fragment_count-gt : (p : Bytes) → 187 * frag_chunk_size < length p → 187 < fragment_count p
unfolding fragment_count
fragment_count-gt p h = omega arith

one_piece :
    (frag_id b : ℕ) (bs : Bytes)
    → length (b ∷ bs) ≤ frag_chunk_size
    → encode_loop frag_id 1 0 (chunks_of frag_chunk_size 1 (b ∷ bs))
      ≡ datagram frag_id 0 1 (b ∷ bs) ∷ []
unfolding chunks_of encode_loop
one_piece frag_id b bs h =
    ap (λ c. datagram frag_id 0 1 c ∷ []) (take_of_length-le frag_chunk_size (b ∷ bs) h)

-- A payload that fits one piece is sent as one datagram.
pub encode_fragments_single :
    (frag_id : ℕ) (p : Bytes)
    → length p ≤ frag_chunk_size
    → encode_fragments frag_id p ≡ datagram frag_id 0 1 p ∷ []
unfolding encode_fragments encode_loop
encode_fragments_single frag_id [] h = refl
encode_fragments_single frag_id (b ∷ bs) h =
    let count = div_ceil (length (b ∷ bs)) frag_chunk_size in
    let e : count ≡ 1 = omega arith in
    ap (λ n. encode_loop frag_id (n % 2 ^ 16) 0 (chunks_of frag_chunk_size n (b ∷ bs))) e
    ∙ one_piece frag_id b bs h
