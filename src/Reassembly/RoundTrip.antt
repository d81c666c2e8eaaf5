-- ===== src/Reassembly/RoundTrip.antt =====
-- What `send_frame` cuts, `handle_datagram` puts together: the whole way of a message.
use mathlib.Core.List.{map, Mem, Perm, map-map, Nodup, Nodup-nil, Nodup-cons}
use mathlib.Core.List.Perm
use native.Mathlib.Bridge.{le_prop}
use native.Mathlib.Nat.{zero-add, suc-add, add-suc, add-zero, le_refl}
use auth_kademlia.Prelude.{
  ℕ, suc, ◌+◌, ◌*◌, ◌%◌, ◌^◌, ◌≤◌, ◌<◌, ◌≡◌, refl, sym, ap, ◌∙◌, none, some, List, [], ◌∷◌, length,
  length-map, get_elem?, All, All-map, arith,
}
use auth_kademlia.Prelude.Assoc
use auth_kademlia.Prelude.Bytes.{Bytes}
use auth_kademlia.Prelude.Members.{mem_of_All, All-perm, length-perm}
use auth_kademlia.Fragmentation.{
  parse_fragment, encode_fragments, encode_loop, datagram, reassembly_ttl, frag_chunk_size,
  max_message_size,
}
use auth_kademlia.Fragmentation.Header.{parse_fragment-datagram}
use auth_kademlia.Fragmentation.Chunks.{
  fragments, fragment_count, flatten-fragments, length-fragments, fragment_count-le,
  fragment_count-bounds, fragment_count-gt, encode_fragments-fragments, encode_fragments_single,
}
use auth_kademlia.Reassembly.{
  Peer, key_eq, ReassemblyMap, deliver, send_frame, receive, receive_parsed,
}
use auth_kademlia.Reassembly.Deliver.{
  IsFragmentOf, index_of, chunk_of, deliver_fragments, deliver_oversized,
}

length-encode_loop :
    (frag_id n i : ℕ) (rest : List Bytes) → length (encode_loop frag_id n i rest) ≡ length rest
unfolding encode_loop
length-encode_loop frag_id n i [] = refl
length-encode_loop frag_id n i (c ∷ rest) = ap suc (length-encode_loop frag_id n (suc i) rest)

send_frame-some :
    (frag_id : ℕ) (p : Bytes) {sent : List Bytes}
    → length p ≤ max_message_size
    → send_frame frag_id p ≡ some sent
    → encode_fragments frag_id p ≡ sent
unfolding send_frame
send_frame-some frag_id p fits e = ground arith

module _ (cs : List Bytes) (frag_id : ℕ) (id32 : frag_id < 2 ^ 32)
    (small : length cs < 2 ^ 16) where
  parse_at :
      (i : ℕ) (c : Bytes)
      → i < length cs
      → parse_fragment (datagram frag_id (i % 2 ^ 16) (length cs) c)
        ≡ some (record { frag_id = frag_id; index = i; total = length cs }, c)
  parse_at i c h =
      let e : i % 2 ^ 16 ≡ i = omega arith in
      rw e (parse_fragment-datagram frag_id i (length cs) c id32 h small)

  abbrev at_index : ℕ → Bytes → Bytes
  at_index i c = datagram frag_id (i % 2 ^ 16) (length cs) c

  index_of-at_index : (i : ℕ) (c : Bytes) → i < length cs → index_of (at_index i c) ≡ i
  unfolding index_of
  index_of-at_index i c h = rw (parse_at i c h, index_of)

  chunk_of-at_index : (i : ℕ) (c : Bytes) → i < length cs → chunk_of (at_index i c) ≡ c
  unfolding chunk_of
  chunk_of-at_index i c h = rw (parse_at i c h, chunk_of)

  fragment_at :
      (i : ℕ) (c : Bytes)
      → get_elem? cs i ≡ some c
      → i < length cs
      → IsFragmentOf cs frag_id (at_index i c)
  fragment_at i c slot h =
      rw (index_of-at_index i c h, chunk_of-at_index i c h) (parse_at i c h, slot)

  -- The datagrams from index `i` on are fragments of the message, with different indices.
  record IsRun (i : ℕ) (ds : List Bytes) : Type 0 where
    fragment : All (IsFragmentOf cs frag_id) ds
    from : All (λ x. i ≤ x) (map index_of ds)
    distinct : Nodup (map index_of ds)

  encode_loop-IsRun :
      (i : ℕ) (rest : List Bytes)
      → ((j : ℕ) (c : Bytes) → get_elem? rest j ≡ some c → get_elem? cs (i + j) ≡ some c)
      → i + length rest ≡ length cs
      → IsRun i (encode_loop frag_id (length cs) i rest)
  unfolding encode_loop
  encode_loop-IsRun i [] slots len = record { fragment = tt; from = tt; distinct = Nodup-nil }
  encode_loop-IsRun i (c ∷ rest) slots len =
      let h : i < length cs = omega arith in
      let e : index_of (at_index i c) ≡ i = index_of-at_index i c h in
      let later =
        encode_loop-IsRun (suc i) rest (λ j d at. rw suc-add (rw (← add-suc) (slots (suc j) d at)))
          (omega arith) in
      record {
        fragment = (fragment_at i c (rw (← add-zero i) (slots 0 c refl)) h, later.fragment);
        from = (rw e (le_refl i), All-map _ _ (λ x k. omega arith) _ later.from);
        distinct = rw e (
            Nodup-cons.1 (
              λ m.
                  absurd
                    (omega (arith, mem_of_All (λ x. suc i ≤ x) (λ x. le_prop) i _ later.from m)),
              later.distinct,
            ));
      }

IsFragmentOf-prop :
    (cs : List Bytes) (frag_id : ℕ) (dg : Bytes) → IsProp (IsFragmentOf cs frag_id dg)
IsFragmentOf-prop cs frag_id dg = hlevel

All-unmap {ℓ κ} :
    {A B : Type ℓ} (P : B → Type κ) (f : A → B) (xs : List A)
    → All P (map f xs)
    → All (λ x. P (f x)) xs
All-unmap P f [] h = tt
All-unmap P f (x ∷ xs) h = (h.0, All-unmap P f xs h.1)

module _ (frag_id : ℕ) (p : Bytes) (id32 : frag_id < 2 ^ 32) (some_bytes : 0 < length p)
    (fits : length p ≤ max_message_size) where
  count_small : length (fragments p) < 2 ^ 16
  count_small = omega (arith, length-fragments p, fragment_count-le p)

  encode_fragments-IsRun :
      IsRun (fragments p) frag_id id32 count_small 0 (encode_fragments frag_id p)
  encode_fragments-IsRun =
      rw
        (
          encode_fragments-fragments frag_id p some_bytes
              (omega (arith, length-fragments p, count_small)),
          ← length-fragments p,
        )
        (encode_loop-IsRun (fragments p) frag_id id32 count_small 0 (fragments p)
          (λ j c at. rw zero-add at) (omega arith))

  length-encode_fragments : length (encode_fragments frag_id p) ≡ length (fragments p)
  length-encode_fragments =
      rw
        (encode_fragments-fragments frag_id p some_bytes
          (omega (arith, length-fragments p, count_small)))
        (length-encode_loop frag_id (fragment_count p) 0 (fragments p))

-- A message of more than one and at most 187 datagrams, with a 32-bit `frag_id` for which the
-- receiver has no buffer of this peer, sent and received in any order within the time to live of a
-- buffer: exactly this message comes out, once, and no buffer of it is left.
pub deliver-send_frame :
    (frag_id : ℕ) (p : Bytes) (m : ReassemblyMap) (peer : Peer) (lo : ℕ) (sent : List Bytes)
    (arrivals : List (ℕ × Bytes))
    → frag_id < 2 ^ 32
    → frag_chunk_size < length p
    → length p ≤ 187 * frag_chunk_size
    → send_frame frag_id p ≡ some sent
    → Perm (map (λ d. d.1) arrivals) sent
    → All (λ d. (lo ≤ d.0) × (d.0 < lo + reassembly_ttl)) arrivals
    → Assoc.find key_eq (peer, frag_id) m ≡ none
    → ((deliver m peer arrivals).1 ≡ p ∷ [])
      × (Assoc.find key_eq (peer, frag_id) (deliver m peer arrivals).0 ≡ none)
deliver-send_frame frag_id p m peer lo sent arrivals id32 more few accepted order timely absent =
    let fits : length p ≤ max_message_size = omega arith in
    let run = encode_fragments-IsRun frag_id p id32 (omega arith) fits in
    let same : encode_fragments frag_id p ≡ sent = send_frame-some frag_id p fits accepted in
    let moved : Perm sent (map (λ d. d.1) arrivals) = Perm.symm order in
    let bounds = fragment_count-bounds p more few in
    let whole = flatten-fragments p in
    rw whole at (
      deliver_fragments (fragments p) frag_id peer (omega (arith, length-fragments p, bounds.0))
        (omega (arith, length-fragments p, bounds.1)) m lo arrivals
        (All-unmap _ _ arrivals
          (All-perm _ (IsFragmentOf-prop _ _) moved (rw (← same) run.fragment)))
        timely
        (rw (map-map index_of (λ (d : ℕ × Bytes). d.1) arrivals) at
          (Perm.nodup (Perm.map index_of moved) (rw (← same) run.distinct)))
        (sym (length-map (λ (d : ℕ × Bytes). d.1) arrivals)
          ∙ length-perm order
          ∙ ap length (sym same)
          ∙ length-encode_fragments frag_id p id32 (omega arith) fits)
        absent)

-- The gap between the two limits: a message of more than 187 pieces that is not over the limit of
-- `send_frame`, with a 32-bit `frag_id`, is sent, and the receiver discards each of its datagrams:
-- whichever arrive, nothing comes out and nothing is kept.
pub deliver-send_frame_lost :
    (frag_id : ℕ) (p : Bytes) (m : ReassemblyMap) (peer : Peer) (arrivals : List (ℕ × Bytes))
    → frag_id < 2 ^ 32
    → 187 * frag_chunk_size < length p
    → length p ≤ max_message_size
    → All (λ d. Mem d.1 (encode_fragments frag_id p)) arrivals
    → (send_frame frag_id p ≡ some (encode_fragments frag_id p))
      × (deliver m peer arrivals ≡ (m, []))
unfolding send_frame
deliver-send_frame_lost frag_id p m peer arrivals id32 large fits mem = (
  ground arith,
  deliver_oversized (fragments p) frag_id peer
      (omega (arith, length-fragments p, fragment_count-gt p large)) m arrivals
      (All-map _ _
        (λ d at.
          mem_of_All _ (IsFragmentOf-prop (fragments p) frag_id) d.1 (encode_fragments frag_id p)
            run.fragment at)
        arrivals mem),
)
  where
    run :
        IsRun
          (fragments p)
          frag_id
          id32
          (count_small frag_id p id32 (omega arith) fits)
          0
          (encode_fragments frag_id p)
    run = encode_fragments-IsRun frag_id p id32 (omega arith) fits

receive_one :
    (frag_id : ℕ) (c : Bytes) (m : ReassemblyMap) (peer : Peer) (now : ℕ)
    → frag_id < 2 ^ 32
    → receive m peer now (datagram frag_id 0 1 c) ≡ (m, some c)
unfolding receive receive_parsed
receive_one frag_id c m peer now id32 =
    ground (arith, parse_fragment-datagram frag_id 0 1 c id32 (omega arith) (omega arith))

-- A message that fits one datagram, with a 32-bit `frag_id`, comes out at once, and touches no
-- buffer.
pub receive-send_frame_single :
    (frag_id : ℕ) (p : Bytes) (m : ReassemblyMap) (peer : Peer) (now : ℕ)
    → frag_id < 2 ^ 32
    → length p ≤ frag_chunk_size
    → (dg : Bytes) × (send_frame frag_id p ≡ some (dg ∷ [])) × (receive m peer now dg ≡ (m, some p))
unfolding send_frame
receive-send_frame_single frag_id p m peer now id32 fits = (
  datagram frag_id 0 1 p,
  ground (arith, encode_fragments_single frag_id p fits),
  receive_one frag_id p m peer now id32,
)
