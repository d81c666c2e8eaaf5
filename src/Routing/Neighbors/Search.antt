-- ===== src/Routing/Neighbors/Search.antt =====
-- What `find_neighbors` answers.
use mathlib.Core.List.{Perm, append_assoc, reverse}
use mathlib.Core.List.Perm
use auth_kademlia.Prelude.{
  ℕ, zero, suc, ◌+◌, ◌-◌, ◌^◌, ◌≤◌, ◌<◌, ◌≡◌, refl, ap, sym, subst, ◌∙◌, not, Option, List, [], ◌∷◌,
  ◌++◌, length, take, drop, retain, arith, take-append_length, drop-append_length, drop-drop,
}
use auth_kademlia.Prelude.Members.{length-perm}
use auth_kademlia.Prelude.Sort.{IsSortedBy, sort_by_key-perm, sort_by_key-IsSortedBy}
use auth_kademlia.Node.{Node, distance_to}
use auth_kademlia.Routing.Bucket.{KBucket, touch_last_updated}
use auth_kademlia.Routing.Bucket.Invariant.{IsBucket}
use auth_kademlia.Routing.Table.{RoutingTable, Outcome, done, bucket_index_for}
use auth_kademlia.Routing.Table.Place.{IsTable, Located, located, bucket_index_for-Located}
use auth_kademlia.Routing.Table.Split.{SameFrame}
use auth_kademlia.Routing.Table.Insert.{put_in, located_ok, replaced-IsTable}
use auth_kademlia.Routing.Table.Twins.{twins, twins_of, twins-append}
use auth_kademlia.Routing.Table.OnePass.{located_get, located_set}
use auth_kademlia.Routing.Neighbors.{
  TableTraverser, start, walk, is_excluded, collect, nearest_first, answer_of, find_neighbors,
}
use auth_kademlia.Routing.Neighbors.Walk.{
  contacts, load, ahead, planned, in_turns, turns, weight, walk-Visits, swap_blocks, reverse-perm,
}

abbrev pub eligible : Node → Option Node → List Node → List Node
eligible target exclude = retain (λ n. not (is_excluded target exclude n))

-- The loop keeps the first `ksize` eligible nodes.
collect-take :
    (target : Node) (exclude : Option Node) (ksize left count : ℕ) (ns : List Node)
    → count + suc left ≡ ksize
    → collect target exclude ksize count ns ≡ take (suc left) (eligible target exclude ns)
unfolding collect retain
collect-take target exclude ksize left count [] h = refl
collect-take target exclude ksize zero count (n ∷ ns) h =
    ground (arith, collect-take target exclude ksize zero count ns h)
collect-take target exclude ksize (suc left) count (n ∷ ns) h =
    let more = collect-take target exclude ksize left (suc count) ns (omega arith) in
    ground (arith, collect-take target exclude ksize (suc left) count ns h, more)

contacts-append : (xs ys : List KBucket) → contacts (xs ++ ys) ≡ contacts xs ++ contacts ys
unfolding contacts
contacts-append [] ys = refl
contacts-append (x ∷ xs) ys =
    ap (◌++◌ x.nodes) (contacts-append xs ys)
    ∙ sym (append_assoc x.nodes (contacts xs) (contacts ys))

load-append : (xs ys : List KBucket) → load (xs ++ ys) ≡ load xs + load ys
unfolding load
load-append [] ys = omega arith
load-append (x ∷ xs) ys = omega (arith, load-append xs ys)

-- The traverser around a bucket has all contacts ahead.
module _ (before after : List KBucket) (b : KBucket) where
  abbrev around : TableTraverser
  around = start (before ++ b ∷ after) (length before) b

  left_side : around.left_buckets ≡ before
  unfolding start
  left_side = take-append_length before (b ∷ after) (length before) refl

  right_side : around.right_buckets ≡ after
  unfolding start
  right_side =
      let next : suc (length before) ≡ length before + 1 = omega arith in
      ap (λ i. drop i (before ++ b ∷ after)) next
      ∙ sym (drop-drop (length before) 1 (before ++ b ∷ after))
      ∙ ap (drop 1) (drop-append_length before (b ∷ after) (length before) refl)

  around-ahead : Perm (contacts (before ++ b ∷ after)) (ahead around)
  unfolding start contacts
  around-ahead =
      rw (contacts-append before (b ∷ after), left_side, right_side)
        (Perm.trans (swap_blocks (contacts before) b.nodes (contacts after))
          (Perm.append_right (contacts before ++ contacts after) (reverse-perm b.nodes)))

  planned-around :
      (visited : List Node)
      → visited ≡ planned around
      → visited ≡ reverse b.nodes ++ in_turns before after
  unfolding start turns
  planned-around visited e =
      e
      ∙ ap (λ l. reverse b.nodes ++ in_turns l around.right_buckets) left_side
      ∙ ap (λ r. reverse b.nodes ++ in_turns before r) right_side

  around-weight : weight around < load (before ++ b ∷ after)
  unfolding start load
  around-weight = omega (
    arith,
    load-append before (b ∷ after),
    ap load left_side,
    ap load right_side,
    length-perm (reverse-perm b.nodes),
  )

-- The answer of a search: all contacts are visited once, the bucket around the target first and then
-- those below and above it in turns, and of those that are not excluded the first `ksize` are listed,
-- in ascending distance.
pub record Found (t : RoutingTable) (target : Node) (exclude : Option Node)
    (o : Outcome (RoutingTable × List Node)) : Type 0 where
  pub after : RoutingTable
  pub neighbors : List Node
  pub visited : List Node
  pub centre : Located t.buckets target.long_id
  pub order : visited ≡ reverse centre.bucket.nodes ++ in_turns centre.before centre.after
  pub result : o ≡ done (after, neighbors)
  pub once : Perm (contacts t.buckets) visited
  pub first : Perm neighbors (take t.ksize (eligible target exclude visited))
  pub sorted : IsSortedBy (λ n. distance_to n target) neighbors
  pub table_ok : IsTable after
  pub same_node : after.node ≡ t.node
  pub same_size : after.ksize ≡ t.ksize
  pub same_contacts : contacts after.buckets ≡ contacts t.buckets
  pub same_twins : (node : Node) → twins node after.buckets ≡ twins node t.buckets

collect-first :
    (target : Node) (exclude : Option Node) (ksize : ℕ) (ns : List Node)
    → 0 < ksize
    → collect target exclude ksize 0 ns ≡ take ksize (eligible target exclude ns)
collect-first target exclude ksize ns h =
    let size : suc (ksize - 1) ≡ ksize = omega arith in
    collect-take target exclude ksize (ksize - 1) 0 ns (omega arith)
    ∙ ap (λ k. take k (eligible target exclude ns)) size

touched-IsBucket : (now : ℕ) (b : KBucket) → IsBucket b → IsBucket (touch_last_updated now b)
unfolding touch_last_updated
touched-IsBucket now b v = record {
  bounded = v.bounded;
  capacity = v.capacity;
  spare = v.spare;
  distinct = v.distinct;
  nodes_in = v.nodes_in;
  replacements_in = v.replacements_in;
  full = v.full;
}

touched-SameFrame : (now : ℕ) (b : KBucket) → SameFrame b (touch_last_updated now b)
unfolding touch_last_updated
touched-SameFrame now b = record { lo = refl; hi = refl; ksize = refl }

module _ (fuel now : ℕ) (t : RoutingTable) (target : Node) (exclude : Option Node)
    (p : Located t.buckets target.long_id) where
  abbrev touched : KBucket
  touched = touch_last_updated now p.bucket

  touched-contacts : contacts (put_in t p (touched ∷ [])).buckets ≡ contacts t.buckets
  unfolding contacts touch_last_updated
  touched-contacts =
      contacts-append p.before (touched ∷ p.after)
      ∙ sym (contacts-append p.before (p.bucket ∷ p.after))
      ∙ ap contacts (sym p.whole)

  touched-twins :
      (node : Node) → twins node (put_in t p (touched ∷ [])).buckets ≡ twins node t.buckets
  unfolding twins twins_of touch_last_updated
  touched-twins node =
      twins-append node p.before (touched ∷ p.after)
      ∙ sym (twins-append node p.before (p.bucket ∷ p.after))
      ∙ ap (twins node) (sym p.whole)

  -- The search is a walk around the located bucket.
  find_neighbors-Located :
      find_neighbors fuel now t target exclude
      ≡ answer_of
          (put_in t p (touched ∷ []))
          target
          exclude
          (walk fuel (around p.before p.after p.bucket))
  unfolding find_neighbors
  find_neighbors-Located =
      let l = target.long_id in
      let idx = bucket_index_for t l in
      let centre = walk fuel (start t.buckets idx p.bucket) in
      (rw (located_get t l p, find_neighbors)
        (ap (λ bs. answer_of (record t { buckets = bs }) target exclude centre)
          (located_set t l p touched)))
      ∙ ap
          (λ i.
            answer_of (put_in t p (touched ∷ [])) target exclude
              (walk fuel (start t.buckets i p.bucket)))
          (bucket_index_for-Located t l p)
      ∙ ap
          (λ bs.
            answer_of (put_in t p (touched ∷ [])) target exclude
              (walk fuel (start bs (length p.before) p.bucket)))
          p.whole

-- For a table in order with a bucket size above 0 and a target with a 128-bit `long_id`,
-- `find_neighbors` returns, given fuel for each bucket and each contact. It visits every contact of
-- the table once: the bucket that covers the target first, then the buckets below it from the lowest
-- and those above it from the nearest, in turns, each from its most recently seen node. It lists the
-- first `ksize` of those visited that are neither the target nor the excluded node, in ascending
-- distance, and leaves the table in order, with the same contacts.
pub find_neighbors-Found :
    (fuel now : ℕ) (t : RoutingTable) (target : Node) (exclude : Option Node)
    → IsTable t
    → 0 < t.ksize
    → target.long_id < 2 ^ 128
    → load t.buckets ≤ fuel
    → Found t target exclude (find_neighbors fuel now t target exclude)
unfolding answer_of nearest_first
find_neighbors-Found fuel now t target exclude v size fits enough =
    let p = located t target.long_id v fits in
    let ring = around p.before p.after p.bucket in
    let heavy = around-weight p.before p.after p.bucket in
    let (visited, ends, seen, plan) =
      walk-Visits fuel ring (omega (arith, heavy, ap load p.whole)) in
    let by_distance : Node → ℕ = λ n. distance_to n target in
    let chosen = collect target exclude t.ksize 0 visited in
    let c = touched fuel now t target exclude p in
    record {
      after = put_in t p (c ∷ []);
      neighbors = nearest_first target chosen;
      visited = visited;
      centre = p;
      order = planned-around p.before p.after p.bucket visited plan;
      result =
          find_neighbors-Located fuel now t target exclude p
          ∙ ap (answer_of (put_in t p (c ∷ [])) target exclude) ends;
      once =
          subst (λ bs. Perm (contacts bs) visited) (sym p.whole)
            (Perm.trans (around-ahead p.before p.after p.bucket) seen);
      first =
          subst (Perm (nearest_first target chosen))
            (collect-first target exclude t.ksize visited size)
            (sort_by_key-perm by_distance chosen);
      sorted = sort_by_key-IsSortedBy by_distance chosen;
      table_ok =
          replaced-IsTable t target.long_id p v c
            (touched-IsBucket now p.bucket (located_ok t target.long_id p v).0)
            (touched-SameFrame now p.bucket);
      same_node = refl;
      same_size = refl;
      same_contacts = touched-contacts fuel now t target exclude p;
      same_twins = touched-twins fuel now t target exclude p;
    }
