-- ===== src/Protocol/Refresh.antt =====
-- What `get_refresh_ids` gives: identifiers of the ranges of the lonely buckets.
use auth_kademlia.Prelude.{
  ℕ, suc, ◌^◌, ◌≤◌, ◌<◌, ◌≡◌, true, List, [], ◌∷◌, map, All, arith, All-retain, All-map,
}
use auth_kademlia.Prelude.Bytes.{Bytes}
use auth_kademlia.Node
use auth_kademlia.Node.{from_id}
use auth_kademlia.Node.Fold.{id_to_u128-to_be_bytes}
use auth_kademlia.Routing.Bucket.{KBucket, covers}
use auth_kademlia.Routing.Table.{lonely_buckets}
use auth_kademlia.Routing.Table.Place.{IsTable, Spans, Spans-le}
use auth_kademlia.Protocol.{KademliaProtocol}
use auth_kademlia.Protocol.Welcome.{refresh_id, get_refresh_ids}

-- `gen_range`.
pub record IsRandom (random : ℕ → ℕ → ℕ) : Type 0 where
  pub above : (lo hi : ℕ) → lo ≤ hi → lo ≤ random lo hi
  pub below : (lo hi : ℕ) → lo ≤ hi → random lo hi ≤ hi

refresh_id-covered :
    (random : ℕ → ℕ → ℕ) (b : KBucket)
    → IsRandom random
    → (b.lo ≤ b.hi) × (b.hi < 2 ^ 128)
    → covers b (from_id (refresh_id random b)).long_id ≡ true
unfolding refresh_id from_id Node.new covers
refresh_id-covered random b r v =
    let above = r.above b.lo b.hi v.0 in
    let below = r.below b.lo b.hi v.0 in
    ground
      (arith, above, below, id_to_u128-to_be_bytes (random b.lo b.hi) (omega (arith, below, v.1)))

-- The ranges of a table in order.
ranged :
    (start : ℕ) (bs : List KBucket)
    → Spans start bs (2 ^ 128)
    → All (λ b. (b.lo ≤ b.hi) × (b.hi < 2 ^ 128)) bs
ranged start [] h = tt
ranged start (b ∷ bs) h =
    ((h.1, omega (arith, Spans-le (suc b.hi) (2 ^ 128) bs h.2)), ranged (suc b.hi) bs h.2)

-- The identifiers, one for each lonely bucket, in their order.
abbrev pub Covered : List KBucket → List Bytes → Type 0
Covered [] [] = Unit
Covered (b ∷ bs) (id ∷ ids) = (covers b (from_id id).long_id ≡ true) × Covered bs ids
Covered _ _ = ⊥

ranges_met :
    (random : ℕ → ℕ → ℕ) (bs : List KBucket)
    → All (λ b. covers b (from_id (refresh_id random b)).long_id ≡ true) bs
    → Covered bs (map (refresh_id random) bs)
ranges_met random [] h = tt
ranges_met random (b ∷ bs) h = (h.0, ranges_met random bs h.1)

-- With random numbers of the ranges that are asked for, `get_refresh_ids` gives one identifier for
-- each lonely bucket of a router in order, in their order, with a fold in the bucket's range.
pub get_refresh_ids-Covered :
    {Cache : Type 0} (p : KademliaProtocol Cache) (now : ℕ) (random : ℕ → ℕ → ℕ)
    → IsTable p.router
    → IsRandom random
    → Covered (lonely_buckets now p.router) (get_refresh_ids p now random)
unfolding get_refresh_ids lonely_buckets
get_refresh_ids-Covered p now random v r = ranges_met random _ (
    All-map _ _ (λ b h. refresh_id-covered random b r h) _
      (All-retain _ _ p.router.buckets (ranged 0 p.router.buckets v.spans)))
