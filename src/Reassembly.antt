-- ===== src/Reassembly.antt =====
-- src/protocol.rs: the first half of `handle_datagram`, which puts messages together from the
-- datagrams of all peers, `gc_reassembly`, and the part of `send_frame` that cuts a message.
pub mod Deliver
pub mod RoundTrip
mod Tests
use auth_kademlia.Prelude.{
  ℕ, ◌*◌, ◌-◌, Bool, true, false, Option, none, some, List, [], ◌∷◌, length, ltb, ◌==◌,
  if◌then◌else◌, ℕ_discrete,
}
use mathlib.Core.Option
use auth_kademlia.Prelude.Assoc
use auth_kademlia.Prelude.Bytes.{Bytes, bytes_eq}
use auth_kademlia.Fragmentation
use auth_kademlia.Fragmentation.{
  ReassemblyEntry, FragHeader, frag_chunk_size, max_message_size, reassembly_ttl, parse_fragment,
  assemble, encode_fragments, insert,
}

-- A `SocketAddr`: address and port.
abbrev pub Peer : Type 0
Peer = Bytes × ℕ

abbrev pub Key : Type 0
Key = Peer × ℕ

unfoldable pub key_eq : Discrete Key
unfolding bytes_eq ℕ_discrete
key_eq = hlevel (bytes_eq, ℕ_discrete)

abbrev pub ReassemblyMap : Type 0
ReassemblyMap = List (Key × ReassemblyEntry)

-- `gc_reassembly`.
unfoldable pub gc_reassembly : ℕ → ReassemblyMap → ReassemblyMap
gc_reassembly now = Assoc.retain_values (λ e. ltb (now - e.created_at) reassembly_ttl)

-- `map.entry(key).or_insert_with(|| ReassemblyEntry::new(total))`.
unfoldable pub entry_or_new : ReassemblyMap → Key → ℕ → ℕ → ReassemblyEntry
entry_or_new m key now total = Option.get_or (Assoc.find key_eq key m) (Fragmentation.new now total)

-- The work under the lock, for a fragment of several: the map after it, and the message if this
-- fragment was the last.
unfoldable pub receive_fragment :
    ReassemblyMap → Key → ℕ → FragHeader → Bytes → ReassemblyMap × Option Bytes
receive_fragment m key now header chunk =
    let entry = entry_or_new m key now header.total in
    let (entry', complete) = insert entry header.index chunk in
    if entry.total == header.total
    then if complete
      then (Assoc.erase key_eq key m, assemble entry')
      else (gc_reassembly now (Assoc.put key_eq key entry' m), none)
    else (Assoc.put key_eq key entry m, none)

unfoldable pub receive_parsed :
    ReassemblyMap → Peer → ℕ → FragHeader → Bytes → ReassemblyMap × Option Bytes
receive_parsed m peer now header chunk =
    if header.total == 1
    then (m, some chunk)
    else if ltb max_message_size (header.total * frag_chunk_size)
    then (m, none)
    else receive_fragment m (peer, header.frag_id) now header chunk

-- `handle_datagram` as far as `payload`.
unfoldable pub receive : ReassemblyMap → Peer → ℕ → Bytes → ReassemblyMap × Option Bytes
receive m peer now dg = elim (parse_fragment dg) [
  | none ↦ (m, none)
  | some (header, chunk) ↦ receive_parsed m peer now header chunk
]

-- The datagrams that `send_frame` hands to the socket for a serialized frame, if it does not refuse.
unfoldable pub send_frame : ℕ → Bytes → Option (List Bytes)
send_frame frag_id bytes =
    if ltb max_message_size (length bytes) then none else some (encode_fragments frag_id bytes)

-- Datagrams with their times of arrival, received one after the other: the map at the end, and the
-- messages that came out.
unfoldable pub deliver : ReassemblyMap → Peer → List (ℕ × Bytes) → ReassemblyMap × List Bytes
deliver m peer [] = (m, [])
deliver m peer (d ∷ rest) =
    let r = receive m peer d.0 d.1 in
    let next = deliver r.0 peer rest in (next.0, elim r.1 [ none ↦ next.1 | some p ↦ p ∷ next.1 ])
