-- ===== src/Reassembly/Tests.antt =====
-- Messages on their way: one of two datagrams, received in reverse order, and others.
use mathlib.Core.List.{perm_middle, Mem, mem-cons_self, mem-cons_of_mem, map}
use auth_kademlia.Prelude.{
  ℕ, ◌≡◌, refl, some, none, List, [], ◌∷◌, replicate, length, arith, All, zero, suc, ap,
}
use auth_kademlia.Prelude.Assoc
use auth_kademlia.Prelude.Bytes.{Bytes}
use auth_kademlia.Fragmentation.{ReassemblyEntry, encode_fragments, datagram, parse_fragment}
use auth_kademlia.Fragmentation.Header.{parse_fragment-datagram}
use auth_kademlia.Reassembly.{Peer, key_eq, deliver, send_frame, receive}
use auth_kademlia.Reassembly.RoundTrip.{
  deliver-send_frame, deliver-send_frame_lost, receive-send_frame_single,
}

abbrev peer : Peer
peer = (127 ∷ 0 ∷ 0 ∷ 1 ∷ [], 8468)

abbrev two_pieces : Bytes
two_pieces = replicate 1500 7

abbrev first_datagram : Bytes
first_datagram = datagram 5 0 2 (replicate 1400 7)

abbrev second_datagram : Bytes
second_datagram = datagram 5 1 2 (replicate 100 7)

abbrev too_long : Bytes
too_long = replicate 261801 7

two_pieces_sent : send_frame 5 two_pieces ≡ some (first_datagram ∷ second_datagram ∷ [])
unfolding send_frame encode_fragments
two_pieces_sent = refl

none_waits : Assoc.find {V = ReassemblyEntry} key_eq (peer, 5) [] ≡ none
unfolding Assoc.find
none_waits = refl

deliver-send_frame_example :
    ((deliver [] peer ((0, second_datagram) ∷ (3, first_datagram) ∷ [])).1 ≡ two_pieces ∷ [])
    × (Assoc.find key_eq
          (peer, 5)
          (deliver [] peer ((0, second_datagram) ∷ (3, first_datagram) ∷ [])).0
        ≡ none)
deliver-send_frame_example =
    deliver-send_frame 5 two_pieces [] peer 0 (first_datagram ∷ second_datagram ∷ [])
      ((0, second_datagram) ∷ (3, first_datagram) ∷ []) (omega arith) (omega arith) (omega arith)
      two_pieces_sent (perm_middle (second_datagram ∷ []) [])
      ((omega arith, omega arith), ((omega arith, omega arith), tt)) none_waits

length-replicate : (n : ℕ) (b : ℕ) → length (replicate n b) ≡ n
length-replicate zero b = refl
length-replicate (suc n) b = ap suc (length-replicate n b)

-- Datagrams that all arrive at time 0.
abbrev at_once : List Bytes → List (ℕ × Bytes)
at_once = map (λ dg. (0, dg))

at_once-mem :
    (ds es : List Bytes) → ((x : Bytes) → Mem x ds → Mem x es) → All (λ d. Mem d.1 es) (at_once ds)
at_once-mem [] es h = tt
at_once-mem (d ∷ ds) es h =
    (h d mem-cons_self, at_once-mem ds es (λ x m. h x (mem-cons_of_mem d m)))

deliver-send_frame_lost_example :
    (send_frame 5 too_long ≡ some (encode_fragments 5 too_long))
    × (deliver [] peer (at_once (encode_fragments 5 too_long)) ≡ ([], []))
deliver-send_frame_lost_example =
    deliver-send_frame_lost 5 too_long [] peer (at_once (encode_fragments 5 too_long)) (omega arith)
      (omega (arith, length-replicate 261801 7)) (omega (arith, length-replicate 261801 7))
      (at_once-mem (encode_fragments 5 too_long) (encode_fragments 5 too_long) (λ x m. m))

receive-send_frame_single_example :
    (dg : Bytes) × (send_frame 5 (1 ∷ 2 ∷ []) ≡ some (dg ∷ []))
    × (receive [] peer 0 dg ≡ ([], some (1 ∷ 2 ∷ [])))
receive-send_frame_single_example =
    receive-send_frame_single 5 (1 ∷ 2 ∷ []) [] peer 0 (omega arith) (omega arith)

parse_fragment-datagram_example :
    parse_fragment second_datagram
    ≡ some (record { frag_id = 5; index = 1; total = 2 }, replicate 100 7)
parse_fragment-datagram_example =
    parse_fragment-datagram 5 1 2 (replicate 100 7) (omega arith) (omega arith) (omega arith)
