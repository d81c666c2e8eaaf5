-- ===== src/Fragmentation/Entry.antt =====
-- One reassembly buffer that is fed fragments of one list of pieces, in any order.
use mathlib.Core.List.{flatten}
use auth_kademlia.Prelude.{
  ℕ, zero, suc, ◌+◌, ◌≡◌, ◌↔◌, refl, ap, Bool, true, Option, none, some, List, [], ◌∷◌, length,
  get_elem?, get_elem?-set_ne, set, replicate, arith,
}
use auth_kademlia.Prelude.Bytes.{Bytes}
use auth_kademlia.Fragmentation.{ReassemblyEntry, new, insert, assemble, assemble_loop}

-- Each filled slot holds the piece of its place.
abbrev pub Agree : List Bytes → List (Option Bytes) → Type 0
Agree [] [] = Unit
Agree (c ∷ cs) (none ∷ ss) = Agree cs ss
Agree (c ∷ cs) (some d ∷ ss) = (d ≡ c) × Agree cs ss
Agree _ _ = ⊥

abbrev pub missing : List (Option Bytes) → ℕ
missing [] = 0
missing (none ∷ ss) = suc (missing ss)
missing (some d ∷ ss) = missing ss

pub record IsPartial (cs : List Bytes) (e : ReassemblyEntry) : Type 0 where
  pub sized : e.total ≡ length cs
  pub agree : Agree cs e.chunks
  pub counted : e.received + missing e.chunks ≡ e.total

Agree-replicate : (cs : List Bytes) → Agree cs (replicate (length cs) none)
Agree-replicate [] = tt
Agree-replicate (c ∷ cs) = Agree-replicate cs

pub missing-replicate : (n : ℕ) → missing (replicate n none) ≡ n
missing-replicate zero = refl
missing-replicate (suc n) = ap suc (missing-replicate n)

pub new-IsPartial : (now : ℕ) (cs : List Bytes) → IsPartial cs (new now (length cs))
unfolding new
new-IsPartial now cs = record {
  sized = refl;
  agree = Agree-replicate cs;
  counted = omega (arith, missing-replicate (length cs));
}

Agree-set :
    (cs : List Bytes) (ss : List (Option Bytes)) (i : ℕ) (c : Bytes)
    → Agree cs ss
    → get_elem? cs i ≡ some c
    → Agree cs (set ss i (some c))
Agree-set [] [] i c a h = tt
Agree-set [] (s ∷ ss) i c a h = elim a [ ]
Agree-set (d ∷ cs) [] i c a h = elim a [ ]
Agree-set (d ∷ cs) (none ∷ ss) zero c a h = (ground arith, a)
Agree-set (d ∷ cs) (some x ∷ ss) zero c a h = (ground arith, a.1)
Agree-set (d ∷ cs) (none ∷ ss) (suc i) c a h = Agree-set cs ss i c a h
Agree-set (d ∷ cs) (some x ∷ ss) (suc i) c a h = (a.0, Agree-set cs ss i c a.1 h)

missing-set :
    (ss : List (Option Bytes)) (i : ℕ) (c : Bytes)
    → get_elem? ss i ≡ some none
    → missing ss ≡ suc (missing (set ss i (some c)))
missing-set [] i c h = cc
missing-set (none ∷ ss) zero c h = refl
missing-set (some d ∷ ss) zero c h = cc
missing-set (none ∷ ss) (suc i) c h = ap suc (missing-set ss i c h)
missing-set (some d ∷ ss) (suc i) c h = missing-set ss i c h

-- A slot of the buffer exists where a piece does.
Agree-slot :
    (cs : List Bytes) (ss : List (Option Bytes)) (i : ℕ) (c : Bytes)
    → Agree cs ss
    → get_elem? cs i ≡ some c
    → (s : Option Bytes) × (get_elem? ss i ≡ some s)
Agree-slot [] ss i c a h = cc
Agree-slot (d ∷ cs) [] i c a h = elim a [ ]
Agree-slot (d ∷ cs) (s ∷ ss) zero c a h = (s, refl)
Agree-slot (d ∷ cs) (none ∷ ss) (suc i) c a h = Agree-slot cs ss i c a h
Agree-slot (d ∷ cs) (some x ∷ ss) (suc i) c a h = Agree-slot cs ss i c a.1 h

Agree-assemble :
    (cs : List Bytes) (ss : List (Option Bytes))
    → Agree cs ss
    → missing ss ≡ 0
    → assemble_loop ss ≡ some (flatten cs)
unfolding assemble_loop flatten
Agree-assemble [] [] a h = refl
Agree-assemble [] (s ∷ ss) a h = elim a [ ]
Agree-assemble (c ∷ cs) [] a h = elim a [ ]
Agree-assemble (c ∷ cs) (none ∷ ss) a h = absurd (omega arith)
Agree-assemble (c ∷ cs) (some d ∷ ss) a h = rw (Agree-assemble cs ss a.1 h, a.0) refl

-- What a fragment of the message does to its buffer: the buffer still agrees with the message, its
-- answer is `true` exactly when no slot is open, and a fragment whose slot was open closes it.
pub record Inserts (cs : List Bytes) (e : ReassemblyEntry) (i : ℕ) (r : ReassemblyEntry × Bool)
    : Type 0 where
  pub partial : IsPartial cs r.0
  pub complete : (r.1 ≡ true) ↔ (missing r.0.chunks ≡ 0)
  pub created : r.0.created_at ≡ e.created_at
  pub closes : get_elem? e.chunks i ≡ some none → missing e.chunks ≡ suc (missing r.0.chunks)
  pub others : (j : ℕ) → (j ≡ i → ⊥) → get_elem? r.0.chunks j ≡ get_elem? e.chunks j

insert_open :
    (cs : List Bytes) (e : ReassemblyEntry) (i : ℕ) (c : Bytes)
    → IsPartial cs e
    → get_elem? cs i ≡ some c
    → get_elem? e.chunks i ≡ some none
    → Inserts cs e i (insert e i c)
unfolding insert
insert_open cs e i c v h slot =
    let closing : missing e.chunks ≡ suc (missing (set e.chunks i (some c))) =
      missing-set e.chunks i c slot in
    rw (slot, insert)
      (record {
        partial = record {
          sized = v.sized;
          agree = Agree-set cs e.chunks i c v.agree h;
          counted = omega (arith, v.counted);
        };
        complete = (λ t. ground (arith, v.counted), λ z. ground (arith, v.counted));
        created = refl;
        closes = λ _. closing;
        others = λ j ne. get_elem?-set_ne e.chunks i j (some c) ne;
      })

insert_taken :
    (cs : List Bytes) (e : ReassemblyEntry) (i : ℕ) (c : Bytes) {d : Bytes}
    → IsPartial cs e
    → get_elem? e.chunks i ≡ some (some d)
    → Inserts cs e i (insert e i c)
unfolding insert
insert_taken cs e i c v slot =
    rw (slot, insert)
      (record {
        partial = v;
        complete = (λ t. ground (arith, v.counted), λ z. ground (arith, v.counted));
        created = refl;
        closes = λ hole. absurd (ground arith);
        others = λ j ne. refl;
      })

insert_slot :
    (cs : List Bytes) (e : ReassemblyEntry) (i : ℕ) (c : Bytes)
    → IsPartial cs e
    → get_elem? cs i ≡ some c
    → (s : Option Bytes) × (get_elem? e.chunks i ≡ some s)
    → Inserts cs e i (insert e i c)
insert_slot cs e i c v h (none, slot) = insert_open cs e i c v h slot
insert_slot cs e i c v h (some d, slot) = insert_taken cs e i c v slot

pub insert-Inserts :
    (cs : List Bytes) (e : ReassemblyEntry) (i : ℕ) (c : Bytes)
    → IsPartial cs e
    → get_elem? cs i ≡ some c
    → Inserts cs e i (insert e i c)
insert-Inserts cs e i c v h = insert_slot cs e i c v h (Agree-slot cs e.chunks i c v.agree h)

-- A buffer with no open slot gives the message.
pub assemble-IsPartial :
    (cs : List Bytes) (e : ReassemblyEntry)
    → IsPartial cs e
    → missing e.chunks ≡ 0
    → assemble e ≡ some (flatten cs)
unfolding assemble
assemble-IsPartial cs e v full = Agree-assemble cs e.chunks v.agree full
