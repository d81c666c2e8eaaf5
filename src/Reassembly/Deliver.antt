-- ===== src/Reassembly/Deliver.antt =====
-- Fragments of one message that arrive in any order, within the time to live of a buffer.
use mathlib.Core.List.{flatten, map, Mem, Nodup, Nodup-cons, mem-cons_self, mem-cons_of_mem}
use auth_kademlia.Prelude.{
  ℕ, zero, suc, ◌+◌, ◌-◌, ◌≤◌, ◌<◌, ◌≡◌, ◌≢◌, refl, sym, ap, subst, ◌∙◌, Option, none, some, List,
  [], ◌∷◌, length, get_elem?, replicate, All, All-zip, arith,
}
use auth_kademlia.Prelude.Assoc
use auth_kademlia.Prelude.Bytes.{Bytes}
use auth_kademlia.Fragmentation
use auth_kademlia.Fragmentation.{
  ReassemblyEntry, FragHeader, parse_fragment, insert, reassembly_ttl,
}
use auth_kademlia.Fragmentation.Entry.{
  IsPartial, missing, missing-replicate, new-IsPartial, insert-Inserts, assemble-IsPartial,
}
use auth_kademlia.Reassembly.{
  Peer, Key, key_eq, ReassemblyMap, entry_or_new, gc_reassembly, receive, receive_parsed,
  receive_fragment, deliver,
}

-- What `deliver` makes of the first datagram's result.
after : Peer → List (ℕ × Bytes) → ReassemblyMap × Option Bytes → ReassemblyMap × List Bytes
after peer ds r =
    let next = deliver r.0 peer ds in (next.0, elim r.1 [ none ↦ next.1 | some p ↦ p ∷ next.1 ])

deliver_silent :
    (m m' : ReassemblyMap) (peer : Peer) (d : ℕ × Bytes) (ds : List (ℕ × Bytes))
    → receive m peer d.0 d.1 ≡ (m', none)
    → deliver m peer (d ∷ ds) ≡ deliver m' peer ds
unfolding deliver after
deliver_silent m m' peer d ds e = ap (after peer ds) e

deliver_out :
    (m m' : ReassemblyMap) (peer : Peer) (d : ℕ × Bytes) (ds : List (ℕ × Bytes)) (p : Bytes)
    → receive m peer d.0 d.1 ≡ (m', some p)
    → deliver m peer (d ∷ ds) ≡ ((deliver m' peer ds).0, p ∷ (deliver m' peer ds).1)
unfolding deliver after
deliver_out m m' peer d ds p e = ap (after peer ds) e

-- The index and the chunk that a datagram carries.
unfoldable pub index_of : Bytes → ℕ
index_of dg = elim (parse_fragment dg) [ none ↦ 0 | some (header, _) ↦ header.index ]

unfoldable pub chunk_of : Bytes → Bytes
chunk_of dg = elim (parse_fragment dg) [ none ↦ [] | some (_, chunk) ↦ chunk ]

-- A datagram of the message with the pieces `cs`.
abbrev pub IsFragmentOf : List Bytes → ℕ → Bytes → Type 0
IsFragmentOf cs frag_id dg =
    (parse_fragment dg
      ≡ some (record { frag_id = frag_id; index = index_of dg; total = length cs }, chunk_of dg))
    × (get_elem? cs (index_of dg) ≡ some (chunk_of dg))

slot-replicate :
    (cs : List Bytes) (i : ℕ) (c : Bytes)
    → get_elem? cs i ≡ some c
    → get_elem? {A = Option Bytes} (replicate (length cs) none) i ≡ some none
slot-replicate [] i c h = cc
slot-replicate (x ∷ cs) zero c h = refl
slot-replicate (x ∷ cs) (suc i) c h = slot-replicate cs i c h

new-born : (now total lo : ℕ) → lo ≤ now → lo ≤ (Fragmentation.new now total).created_at
unfolding Fragmentation.new
new-born now total lo h = h

missing-new : (now total : ℕ) → missing (Fragmentation.new now total).chunks ≡ total
unfolding Fragmentation.new
missing-new now total = missing-replicate total

not-mem_distinct :
    (i : ℕ) (ds : List (ℕ × Bytes))
    → ¬ Mem i (map (λ b. index_of b.1) ds)
    → All (λ b. index_of b.1 ≢ i) ds
not-mem_distinct i [] h = tt
not-mem_distinct i (d ∷ ds) h =
    (λ e. h (rw e mem-cons_self), not-mem_distinct i ds (λ m. h (mem-cons_of_mem _ m)))

module _ (cs : List Bytes) (frag_id : ℕ) (peer : Peer) (many : 2 ≤ length cs)
    (few : length cs ≤ 187) where
  abbrev key : Key
  key = (peer, frag_id)

  abbrev current : ReassemblyMap → ℕ → ReassemblyEntry
  current m now = entry_or_new m key now (length cs)

  receive-fragment :
      (m : ReassemblyMap) (now : ℕ) (dg : Bytes) (g : IsFragmentOf cs frag_id dg)
      → receive m peer now dg
        ≡ receive_fragment m key now
            (record { frag_id = frag_id; index = index_of dg; total = length cs })
            (chunk_of dg)
  unfolding receive receive_parsed
  receive-fragment m now dg g = ground (arith, g.0)

  receive_last :
      (m : ReassemblyMap) (now : ℕ) (dg : Bytes) (g : IsFragmentOf cs frag_id dg)
      → IsPartial cs (current m now)
      → missing (insert (current m now) (index_of dg) (chunk_of dg)).0.chunks ≡ 0
      → receive m peer now dg ≡ (Assoc.erase key_eq key m, some (flatten cs))
  unfolding receive_fragment
  receive_last m now dg g v full =
      let r = insert-Inserts cs (current m now) (index_of dg) (chunk_of dg) v g.1 in
      ground (
        arith,
        receive-fragment m now dg g,
        v.sized,
        r.complete.1 full,
        assemble-IsPartial cs (insert (current m now) (index_of dg) (chunk_of dg)).0 r.partial full,
      )

  receive_more :
      (m : ReassemblyMap) (now : ℕ) (dg : Bytes) (g : IsFragmentOf cs frag_id dg)
      → IsPartial cs (current m now)
      → missing (insert (current m now) (index_of dg) (chunk_of dg)).0.chunks ≢ 0
      → receive m peer now dg ≡ (
        gc_reassembly now
            (Assoc.put key_eq key (insert (current m now) (index_of dg) (chunk_of dg)).0 m),
        none,
      )
  unfolding receive_fragment
  receive_more m now dg g v open_slots =
      let r = insert-Inserts cs (current m now) (index_of dg) (chunk_of dg) v g.1 in
      ground (arith, receive-fragment m now dg g, v.sized, r.complete.0)

  current-found :
      (m : ReassemblyMap) (now : ℕ) (e : ReassemblyEntry)
      → Assoc.find key_eq key m ≡ some e
      → current m now ≡ e
  unfolding entry_or_new
  current-found m now e h = rw h

  -- A buffer that is put back survives the collection while it is young.
  kept :
      (m : ReassemblyMap) (now : ℕ) (e : ReassemblyEntry)
      → now - e.created_at < reassembly_ttl
      → Assoc.find key_eq key (gc_reassembly now (Assoc.put key_eq key e m)) ≡ some e
  unfolding gc_reassembly
  kept m now e young =
      Assoc.find-retain_values key_eq _ key e (Assoc.put key_eq key e m)
        (Assoc.find-put_self key_eq key e m) (ground arith)

  -- What holds of the buffer before the fragments `ds` that are still to come.
  record Awaits (lo : ℕ) (e : ReassemblyEntry) (ds : List (ℕ × Bytes)) : Type 0 where
    partial : IsPartial cs e
    born : lo ≤ e.created_at
    unfilled : All (λ d. get_elem? e.chunks (index_of d.1) ≡ some none) ds
    count : missing e.chunks ≡ length ds

  abbrev Delivered : ReassemblyMap × List Bytes → Type 0
  Delivered r = (r.1 ≡ flatten cs ∷ []) × (Assoc.find key_eq key r.0 ≡ none)

  abbrev Delivers : ReassemblyMap → List (ℕ × Bytes) → Type 0
  Delivers m ds = Delivered (deliver m peer ds)

  deliver_last :
      (m : ReassemblyMap) (lo : ℕ) (d : ℕ × Bytes)
      → IsFragmentOf cs frag_id d.1
      → Awaits lo (current m d.0) (d ∷ [])
      → Delivers m (d ∷ [])
  unfolding deliver
  deliver_last m lo d g a =
      let e = current m d.0 in
      let r = insert-Inserts cs e (index_of d.1) (chunk_of d.1) a.partial g.1 in
      let slot : get_elem? e.chunks (index_of d.1) ≡ some none = a.unfilled.0 in
      let full : missing (insert e (index_of d.1) (chunk_of d.1)).0.chunks ≡ 0 =
        omega (arith, r.closes slot, a.count) in
      subst Delivered (sym (deliver_out m _ peer d [] _ (receive_last m d.0 d.1 g a.partial full)))
        (refl, Assoc.find-erase_self key_eq key m)

  Awaits-next :
      (m : ReassemblyMap) (lo : ℕ) (d : ℕ × Bytes) (ds : List (ℕ × Bytes))
      (g : IsFragmentOf cs frag_id d.1)
      → All (λ b. index_of b.1 ≢ index_of d.1) ds
      → Awaits lo (current m d.0) (d ∷ ds)
      → Awaits lo (insert (current m d.0) (index_of d.1) (chunk_of d.1)).0 ds
  Awaits-next m lo d ds g distinct a =
      let e = current m d.0 in
      let r = insert-Inserts cs e (index_of d.1) (chunk_of d.1) a.partial g.1 in
      let slot : get_elem? e.chunks (index_of d.1) ≡ some none = a.unfilled.0 in
      record {
        partial = r.partial;
        born = rw r.created a.born;
        unfilled =
            All-zip _ _ _ (λ b ne still. r.others (index_of b.1) ne ∙ still) ds distinct
              a.unfilled.1;
        count = omega (arith, r.closes slot, a.count);
      }

  deliver_each :
      (m : ReassemblyMap) (lo : ℕ) (d : ℕ × Bytes) (ds : List (ℕ × Bytes))
      → All (λ b. IsFragmentOf cs frag_id b.1) (d ∷ ds)
      → All (λ b. (lo ≤ b.0) × (b.0 < lo + reassembly_ttl)) (d ∷ ds)
      → Nodup (map (λ b. index_of b.1) (d ∷ ds))
      → Awaits lo (current m d.0) (d ∷ ds)
      → Delivers m (d ∷ ds)
  deliver_each m lo d [] gs ts n a = deliver_last m lo d gs.0 a
  deliver_each m lo d (d' ∷ ds) gs ts n a =
      let (fresh, rest) = Nodup-cons.0 n in
      let g = gs.0 in
      let e' = (insert (current m d.0) (index_of d.1) (chunk_of d.1)).0 in
      let next : Awaits lo e' (d' ∷ ds) =
        Awaits-next m lo d (d' ∷ ds) g (not-mem_distinct (index_of d.1) (d' ∷ ds) fresh) a in
      let m' = gc_reassembly d.0 (Assoc.put key_eq key e' m) in
      let found : current m' d'.0 ≡ e' =
        current-found m' d'.0 e' (kept m d.0 e' (omega (arith, next.born, ts.0.1))) in
      let more = receive_more m d.0 d.1 g a.partial (λ z. absurd (omega (arith, next.count))) in
      subst Delivered (sym (deliver_silent m m' peer d (d' ∷ ds) more))
        (deliver_each m' lo d' ds gs.1 ts.1 rest (rw found next))

  current-new :
      (m : ReassemblyMap) (now : ℕ)
      → Assoc.find key_eq key m ≡ none
      → current m now ≡ Fragmentation.new now (length cs)
  unfolding entry_or_new
  current-new m now h = rw h

  unfilled-new :
      (now : ℕ) (ds : List (ℕ × Bytes))
      → All (λ b. IsFragmentOf cs frag_id b.1) ds
      → All
          (λ b. get_elem? (Fragmentation.new now (length cs)).chunks (index_of b.1) ≡ some none)
          ds
  unfolding Fragmentation.new
  unfilled-new now [] gs = tt
  unfilled-new now (d ∷ ds) gs =
      (slot-replicate cs (index_of d.1) (chunk_of d.1) gs.0.1, unfilled-new now ds gs.1)

  -- The fragments of a message, each once and in any order: the message comes out, once, and its
  -- buffer is gone.
  pub deliver_fragments :
      (m : ReassemblyMap) (lo : ℕ) (ds : List (ℕ × Bytes))
      → All (λ b. IsFragmentOf cs frag_id b.1) ds
      → All (λ b. (lo ≤ b.0) × (b.0 < lo + reassembly_ttl)) ds
      → Nodup (map (λ b. index_of b.1) ds)
      → length ds ≡ length cs
      → Assoc.find key_eq key m ≡ none
      → ((deliver m peer ds).1 ≡ flatten cs ∷ [])
        × (Assoc.find key_eq key (deliver m peer ds).0 ≡ none)
  deliver_fragments m lo [] gs ts n len absent = absurd (omega arith)
  deliver_fragments m lo (d ∷ ds) gs ts n len absent =
      deliver_each m lo d ds gs ts n (rw (current-new m d.0 absent) fresh)
    where
      fresh : Awaits lo (Fragmentation.new d.0 (length cs)) (d ∷ ds)
      fresh = record {
        partial = new-IsPartial d.0 cs;
        born = new-born d.0 (length cs) lo ts.0.0;
        unfilled = unfilled-new d.0 (d ∷ ds) gs;
        count = missing-new d.0 (length cs) ∙ sym len;
      }

module _ (cs : List Bytes) (frag_id : ℕ) (peer : Peer) (large : 187 < length cs) where
  receive_oversized :
      (m : ReassemblyMap) (now : ℕ) (dg : Bytes)
      → IsFragmentOf cs frag_id dg
      → receive m peer now dg ≡ (m, none)
  unfolding receive receive_parsed
  receive_oversized m now dg g = ground (arith, g.0)

  -- Fragments of a message of more than 187 pieces are discarded.
  pub deliver_oversized :
      (m : ReassemblyMap) (ds : List (ℕ × Bytes))
      → All (λ d. IsFragmentOf cs frag_id d.1) ds
      → deliver m peer ds ≡ (m, [])
  unfolding deliver
  deliver_oversized m [] gs = refl
  deliver_oversized m (d ∷ ds) gs =
      deliver_silent m m peer d ds (receive_oversized m d.0 d.1 gs.0) ∙ deliver_oversized m ds gs.1
