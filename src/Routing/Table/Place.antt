-- ===== src/Routing/Table/Place.antt =====
-- Where a `long_id` has its bucket: the ranges follow one another and fill the key space.
use auth_kademlia.Prelude.{
  ℕ, suc, ◌^◌, ◌≤◌, ◌<◌, ◌≡◌, refl, ap, inl, inr, true, false, some, List, [], ◌∷◌, ◌++◌, length,
  position, get_elem?, set, remove_at, All, arith, leb, Option-cases, Bool-cases, position_split,
  position_absent, All-append, All-append_left, All-append_right,
}
use auth_kademlia.Routing.Bucket.{KBucket, covers}
use auth_kademlia.Routing.Bucket.Invariant.{IsBucket}
use auth_kademlia.Routing.Table.{RoutingTable, bucket_index_for, insert_at}

-- The ranges of the buckets, none empty, cover `start` up to `end`, without a gap or an overlap.
abbrev pub Spans : ℕ → List KBucket → ℕ → Type 0
Spans start [] stop = start ≡ stop
Spans start (b ∷ bs) stop = (b.lo ≡ start) × (b.lo ≤ b.hi) × Spans (suc b.hi) bs stop

pub record IsTable (t : RoutingTable) : Type 0 where
  pub spans : Spans 0 t.buckets (2 ^ 128)
  pub buckets_ok : All (λ b. IsBucket b × (b.ksize ≡ t.ksize)) t.buckets

pub Spans-le : (start stop : ℕ) (bs : List KBucket) → Spans start bs stop → start ≤ stop
Spans-le start stop [] h = omega arith
Spans-le start stop (b ∷ bs) h = omega (arith, Spans-le (suc b.hi) stop bs h.2)

Spans-covered :
    (l start stop : ℕ) (bs : List KBucket)
    → Spans start bs stop
    → start ≤ l
    → l < stop
    → All (λ b. covers b l ≡ false) bs
    → ⊥
unfolding covers
Spans-covered l start stop [] h lo hi a = omega arith
Spans-covered l start stop (b ∷ bs) h lo hi a = elim (Bool-cases (leb l b.hi)) [
  | inl inside ↦ ground (arith, a.0)
  | inr beyond ↦ Spans-covered l (suc b.hi) stop bs h.2 (ground arith) hi a.1
]

-- The bucket of `l`, with the buckets before it, which do not cover `l`, and those after it.
pub record Located (bs : List KBucket) (l : ℕ) : Type 0 where
  pub before : List KBucket
  pub bucket : KBucket
  pub after : List KBucket
  pub whole : bs ≡ before ++ bucket ∷ after
  pub misses : All (λ b. covers b l ≡ false) before
  pub hit : covers bucket l ≡ true

Located-at :
    (bs : List KBucket) (l : ℕ) {i : ℕ} → position (λ b. covers b l) bs ≡ some i → Located bs l
Located-at bs l h =
    let (before, b, after, whole, _, hit, misses, _) = position_split (λ b. covers b l) bs h in
    record { before = before; bucket = b; after = after; whole = whole; misses = misses; hit = hit }

pub located : (t : RoutingTable) (l : ℕ) → IsTable t → l < 2 ^ 128 → Located t.buckets l
located t l v h = elim (Option-cases (position (λ b. covers b l) t.buckets)) [
  | inl absent ↦ absurd (
      Spans-covered l 0 (2 ^ 128) t.buckets v.spans (omega arith) h
        (position_absent (λ b. covers b l) t.buckets absent))
  | inr (i, at) ↦ Located-at t.buckets l at
]

position-append :
    (l : ℕ) (before after : List KBucket) (b : KBucket)
    → All (λ c. covers c l ≡ false) before
    → covers b l ≡ true
    → position (λ c. covers c l) (before ++ b ∷ after) ≡ some (length before)
unfolding position
position-append l [] after b misses hit = rw (hit, position)
position-append l (c ∷ before) after b misses hit =
    rw (misses.0, position, position-append l before after b misses.1 hit)

-- The index that the code computes is that of the located bucket.
pub bucket_index_for-Located :
    (t : RoutingTable) (l : ℕ) (p : Located t.buckets l) → bucket_index_for t l ≡ length p.before
unfolding bucket_index_for
bucket_index_for-Located t l p =
    rw (p.whole, position-append l p.before p.after p.bucket p.misses p.hit)

-- Reads and writes at the index behind `before`.
pub get_elem?-middle :
    (before after : List KBucket) (b : KBucket)
    → get_elem? (before ++ b ∷ after) (length before) ≡ some b
get_elem?-middle [] after b = refl
get_elem?-middle (c ∷ before) after b = get_elem?-middle before after b

pub set-middle :
    (before after : List KBucket) (b c : KBucket)
    → set (before ++ b ∷ after) (length before) c ≡ before ++ c ∷ after
set-middle [] after b c = refl
set-middle (d ∷ before) after b c = ap (◌∷◌ d) (set-middle before after b c)

pub remove_at-middle :
    (before after : List KBucket) (b : KBucket)
    → remove_at (before ++ b ∷ after) (length before) ≡ before ++ after
unfolding remove_at
remove_at-middle [] after b = refl
remove_at-middle (d ∷ before) after b = ap (◌∷◌ d) (remove_at-middle before after b)

insert_at-nil : (after : List KBucket) (b : KBucket) → insert_at after 0 b ≡ b ∷ after
unfolding insert_at
insert_at-nil [] b = refl
insert_at-nil (c ∷ after) b = refl

pub insert_at-middle :
    (before after : List KBucket) (b : KBucket)
    → insert_at (before ++ after) (length before) b ≡ before ++ b ∷ after
unfolding insert_at
insert_at-middle [] after b = insert_at-nil after b
insert_at-middle (d ∷ before) after b = ap (◌∷◌ d) (insert_at-middle before after b)

-- Another bucket of the same range, or two that share it, in the place of one.
pub Spans-replace :
    (start stop : ℕ) (before after : List KBucket) (b c : KBucket)
    → c.lo ≡ b.lo
    → c.hi ≡ b.hi
    → Spans start (before ++ b ∷ after) stop
    → Spans start (before ++ c ∷ after) stop
Spans-replace start stop [] after b c lo hi h = (omega arith, omega arith, rw hi h.2)
Spans-replace start stop (d ∷ before) after b c lo hi h =
    (h.0, h.1, Spans-replace (suc d.hi) stop before after b c lo hi h.2)

pub Spans-split :
    (start stop : ℕ) (before after : List KBucket) (b low high : KBucket)
    → low.lo ≡ b.lo
    → low.lo ≤ low.hi
    → high.lo ≡ suc low.hi
    → high.lo ≤ high.hi
    → high.hi ≡ b.hi
    → Spans start (before ++ b ∷ after) stop
    → Spans start (before ++ low ∷ high ∷ after) stop
Spans-split start stop [] after b low high p q r s e h = (omega arith, q, (r, s, rw e h.2))
Spans-split start stop (d ∷ before) after b low high p q r s e h =
    (h.0, h.1, Spans-split (suc d.hi) stop before after b low high p q r s e h.2)

pub Spans-hi-lt :
    (start stop : ℕ) (before after : List KBucket) (b : KBucket)
    → Spans start (before ++ b ∷ after) stop
    → (b.hi < stop) × (b.lo ≤ b.hi)
Spans-hi-lt start stop [] after b h = (omega (arith, Spans-le (suc b.hi) stop after h.2), h.1)
Spans-hi-lt start stop (d ∷ before) after b h = Spans-hi-lt (suc d.hi) stop before after b h.2

-- A predicate on all buckets, at the one in the middle, and with that one replaced.
pub All-middle {κ} :
    (P : KBucket → Type κ) (before after : List KBucket) (b : KBucket)
    → All P (before ++ b ∷ after)
    → P b
All-middle P [] after b h = h.0
All-middle P (d ∷ before) after b h = All-middle P before after b h.1

pub All-replace {κ} :
    (P : KBucket → Type κ) (before after : List KBucket) (b : KBucket) (cs : List KBucket)
    → All P (before ++ b ∷ after)
    → All P cs
    → All P (before ++ (cs ++ after))
All-replace P before after b cs h hc =
    All-append P before (cs ++ after) (All-append_left P before (b ∷ after) h)
      (All-append P cs after hc (All-append_right P before (b ∷ after) h).1)
