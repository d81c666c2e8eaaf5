-- ===== src/Fragmentation.antt =====
-- src/fragmentation.rs: logical messages cut into datagrams below the MTU, the datagrams' header,
-- and the buffer in which one message is put together again. A `u16` and a `u32` are numbers that the
-- encoder cuts to their width; times are in seconds.
pub mod Header
pub mod Chunks
pub mod Entry
use auth_kademlia.Prelude.{
  ℕ, zero, suc, ◌+◌, ◌-◌, ◌*◌, ◌/◌, ◌%◌, ◌^◌, Bool, true, false, ◌||◌, Option, none, some, List, [],
  ◌∷◌, ◌++◌, length, take, drop, get_elem?, set, replicate, ltb, leb, ◌==◌, if◌then◌else◌,
}
use auth_kademlia.Prelude.Bytes.{Bytes, from_be_bytes, to_be_bytes}

abbrev pub frag_magic : ℕ
frag_magic = 0x4B41_4446

abbrev pub frag_header_len : ℕ
frag_header_len = 12

abbrev pub frag_chunk_size : ℕ
frag_chunk_size = 1400

abbrev pub reassembly_ttl : ℕ
reassembly_ttl = 10

abbrev pub max_message_size : ℕ
max_message_size = 256 * 1024

-- `ReassemblyEntry`.
pub record ReassemblyEntry : Type 0 where
  pub total : ℕ
  pub received : ℕ
  pub chunks : List (Option Bytes)
  pub created_at : ℕ

unfoldable pub new : ℕ → ℕ → ReassemblyEntry
new now total = record {
  total = total;
  received = 0;
  chunks = replicate total none;
  created_at = now;
}

-- `insert`: a slot that is out of range or taken is left as it is.
unfoldable pub insert : ReassemblyEntry → ℕ → Bytes → ReassemblyEntry × Bool
insert e index payload = elim (get_elem? e.chunks index) [
  | none ↦ (e, false)
  | some slot ↦ elim slot [
    | none ↦ (
      record e { chunks = set e.chunks index (some payload); received = e.received + 1 },
      e.received + 1 == e.total,
    )
    | some old ↦ (e, e.received == e.total)
  ]
]

assemble_loop : List (Option Bytes) → Option Bytes
assemble_loop [] = some []
assemble_loop (none ∷ cs) = none
assemble_loop (some c ∷ cs) = elim (assemble_loop cs) [ none ↦ none | some out ↦ some (c ++ out) ]

unfoldable pub assemble : ReassemblyEntry → Option Bytes
unfolding assemble_loop
assemble e = assemble_loop e.chunks

-- `usize::div_ceil`.
abbrev pub div_ceil : ℕ → ℕ → ℕ
div_ceil n d = (n + (d - 1)) / d

-- The pieces of `payload.chunks(size)`, at their count.
unfoldable pub chunks_of : ℕ → ℕ → Bytes → List Bytes
chunks_of size zero payload = []
chunks_of size (suc n) payload = take size payload ∷ chunks_of size n (drop size payload)

unfoldable pub datagram : ℕ → ℕ → ℕ → Bytes → Bytes
datagram frag_id index total chunk =
    to_be_bytes 4 frag_magic
    ++ (to_be_bytes 4 frag_id ++ (to_be_bytes 2 index ++ (to_be_bytes 2 total ++ chunk)))

-- The loop over `enumerate()`, from index `i`; `i as u16` keeps 16 bits.
unfoldable pub encode_loop : ℕ → ℕ → ℕ → List Bytes → List Bytes
encode_loop frag_id total i [] = []
encode_loop frag_id total i (c ∷ cs) =
    datagram frag_id (i % 2 ^ 16) total c ∷ encode_loop frag_id total (suc i) cs

unfoldable pub encode_fragments : ℕ → Bytes → List Bytes
unfolding encode_loop chunks_of datagram
encode_fragments frag_id [] = datagram frag_id 0 1 [] ∷ []
encode_fragments frag_id (b ∷ bs) =
    let payload : Bytes = b ∷ bs in
    let count = div_ceil (length payload) frag_chunk_size in
    encode_loop frag_id (count % 2 ^ 16) 0 (chunks_of frag_chunk_size count payload)

pub record FragHeader : Type 0 where
  pub frag_id : ℕ
  pub index : ℕ
  pub total : ℕ

-- The checks of `parse_fragment`, in the order of the source.
unfoldable pub parse_fragment : Bytes → Option (FragHeader × Bytes)
parse_fragment dg =
    let frag_id = from_be_bytes (take 4 (drop 4 dg)) in
    let index = from_be_bytes (take 2 (drop 8 dg)) in
    let total = from_be_bytes (take 2 (drop 10 dg)) in
    if ltb (length dg) frag_header_len
    then none
    else if from_be_bytes (take 4 dg) == frag_magic
    then if (total == 0) || leb total index
      then none
      else some
          (record { frag_id = frag_id; index = index; total = total }, drop frag_header_len dg)
    else none
