-- ===== src/Routing/Table/OnePass.antt =====
-- One pass of `RoutingTable::insert`: what it does to the located bucket, and the two halves.
use mathlib.Core.List.{append_assoc}
use native.Mathlib.Nat.{pow-suc}
use auth_kademlia.Prelude.{
  ℕ, suc, ◌-◌, ◌%◌, ◌^◌, ◌≤◌, ◌<◌, ◌≡◌, refl, sym, ap, ◌∙◌, ◌⊎◌, inl, inr, true, false, ◌||◌, not,
  Option, none, some, List, [], ◌∷◌, ◌++◌, length, get_elem?, set, All, arith, ◌==◌, ltb,
  Bool-cases, All-map, All-append, leb,
}
use auth_kademlia.Node.{Node}
use auth_kademlia.Routing.Bucket
use auth_kademlia.Routing.Bucket.{KBucket, add_node, split, depth, head, covers}
use auth_kademlia.Routing.Bucket.Invariant.{IsBucket, add_node-IsBucket}
use auth_kademlia.Routing.Table.{
  RoutingTable, Outcome, done, Pass, returns, again, bucket_index_for, split_bucket, insert_pass,
  insert, is_new_node,
}
use auth_kademlia.Routing.Table.Place.{
  IsTable, Located, bucket_index_for-Located, get_elem?-middle, set-middle, remove_at-middle,
  insert_at-middle,
}
use auth_kademlia.Routing.Table.Split.{IsSplit, add_node-SameFrame, split-IsSplit, middle}
use auth_kademlia.Routing.Table.Twins.{
  twins, add_node-twins, split-twins, twins-middle, twins-middle_two, point-twins, self-is_twin,
}
use auth_kademlia.Routing.Table.Insert.{
  put_in, contains-add_node, add_node-Refused, located_ok, located_range, located_in,
  replaced-IsTable, halved-IsTable, in-covers, out-covers,
}

unfoldable pub after_pass : ℕ → ℕ → Node → Pass → Outcome (RoutingTable × Option Node)
after_pass fuel now node (returns t lru) = done (t, lru)
after_pass fuel now node (again t) = insert fuel now t node

module _ (t : RoutingTable) (l : ℕ) (p : Located t.buckets l) where
  pub located_get : get_elem? t.buckets (bucket_index_for t l) ≡ some p.bucket
  located_get =
      ap (get_elem? t.buckets) (bucket_index_for-Located t l p)
      ∙ ap (λ bs. get_elem? bs (length p.before)) p.whole
      ∙ get_elem?-middle p.before p.after p.bucket

  pub located_set : (c : KBucket) → set t.buckets (bucket_index_for t l) c ≡ p.before ++ c ∷ p.after
  located_set c =
      ap (λ i. set t.buckets i c) (bucket_index_for-Located t l p)
      ∙ ap (λ bs. set bs (length p.before) c) p.whole
      ∙ set-middle p.before p.after p.bucket c

split_bucket-middle :
    (now : ℕ) (t : RoutingTable) (before after : List KBucket) (c : KBucket)
    → split_bucket now (record t { buckets = before ++ c ∷ after }) (length before)
      ≡ record t { buckets = before ++ (split now c).0 ∷ (split now c).1 ∷ after }
unfolding split_bucket
split_bucket-middle now t before after c = rw (
  split_bucket,
  get_elem?-middle before after c,
  remove_at-middle before after c,
  insert_at-middle before after (split now c).1,
  insert_at-middle before ((split now c).1 ∷ after) (split now c).0,
)

pub insert-pass :
    (fuel now : ℕ) (t : RoutingTable) (node : Node) (p : Located t.buckets node.long_id)
    → insert (suc fuel) now t node
      ≡ after_pass fuel now node (insert_pass now t node (bucket_index_for t node.long_id) p.bucket)
unfolding insert after_pass
insert-pass fuel now t node p =
    rw (located_get t node.long_id p, insert)
      (elim (insert_pass now t node (bucket_index_for t node.long_id) p.bucket) [
        | returns t' lru ↦ refl
        | again t' ↦ refl
      ])

is_new_node-Located :
    (t : RoutingTable) (node : Node) (p : Located t.buckets node.long_id)
    → is_new_node t node ≡ done (not (Bucket.contains p.bucket node))
unfolding is_new_node
is_new_node-Located t node p = rw (located_get t node.long_id p, is_new_node) refl

module _ (now : ℕ) (t : RoutingTable) (node : Node) (p : Located t.buckets node.long_id) where
  -- The located bucket once it has taken the node, and its halves.
  abbrev pub taken : KBucket
  taken = (add_node p.bucket node).0

  abbrev pub halves : KBucket × KBucket
  halves = split now taken

  abbrev pub kept : RoutingTable
  kept = put_in t p (taken ∷ [])

  abbrev pub cut : RoutingTable
  cut = put_in t p (halves.0 ∷ halves.1 ∷ [])

  set-kept : record t { buckets = set t.buckets (length p.before) taken } ≡ kept
  set-kept =
      ap (λ bs. record t { buckets = set bs (length p.before) taken }) p.whole
      ∙ ap (λ bs. record t { buckets = bs }) (set-middle p.before p.after p.bucket taken)

  -- What one pass does: the node is taken, or a full bucket refuses it, and then it is split or not.
  pub insert_pass-cases :
      (((add_node p.bucket node).1 ≡ true)
        × (insert_pass now t node (length p.before) p.bucket ≡ returns kept none))
      ⊎ ((((add_node p.bucket node).1 ≡ false)
            × (insert_pass now t node (length p.before) p.bucket ≡ again cut))
          ⊎ (((add_node p.bucket node).1 ≡ false)
              × (insert_pass now t node (length p.before) p.bucket ≡ returns kept (head taken))))
  unfolding insert_pass
  insert_pass-cases = elim (Bool-cases (add_node p.bucket node).1) [
    | inl took ↦ inl (took, rw (insert_pass, took) (ap (λ u. returns u none) set-kept))
    | inr full ↦
        inr (elim (Bool-cases (covers taken t.node.long_id || not (depth taken % 5 == 0))) [
          | inl cuts ↦ inl (
            full,
            rw (insert_pass, full, cuts)
                (ap (λ u. again (split_bucket now u (length p.before))) set-kept
                  ∙ ap again (split_bucket-middle now t p.before p.after taken)),
          )
          | inr keeps ↦
              inr (full, rw (insert_pass, full, keeps) (ap (λ u. returns u (head taken)) set-kept))
        ])
  ]

  -- A full bucket without the node is wider than a point, when the node has few twins.
  pub refused-wide :
      IsTable t
      → twins node t.buckets < t.ksize
      → (add_node p.bucket node).1 ≡ false
      → p.bucket.lo < p.bucket.hi
  refused-wide v few full = elim (Bool-cases (ltb p.bucket.lo p.bucket.hi)) [
    | inl wide ↦ ground arith
    | inr point ↦
        let (low, high) = located_in t node.long_id p v in
        let (ok, size) = located_ok t node.long_id p v in
        let refused = add_node-Refused p.bucket node full in
        let one : p.bucket.hi ≤ p.bucket.lo = ground arith in
        let same : All (λ n. n.long_id ≡ node.long_id) p.bucket.nodes =
          All-map _ _ (λ n inside. omega (arith, inside.0, inside.1)) p.bucket.nodes ok.nodes_in in
        absurd (
          omega (
            arith,
            point-twins node p.bucket same refused.absent,
            ap (twins node) p.whole,
            twins-middle node p.before p.after p.bucket,
            refused.crowded,
            size,
          ))
  ]

  pub cut-twins : twins node cut.buckets ≤ twins node t.buckets
  cut-twins = omega (
    arith,
    twins-middle_two node p.before p.after halves.0 halves.1,
    split-twins node now taken,
    add_node-twins node p.bucket node,
    self-is_twin node,
    ap (twins node) p.whole,
    twins-middle node p.before p.after p.bucket,
  )

  module _ (v : IsTable t) where
    taken-IsBucket : IsBucket taken
    taken-IsBucket =
        add_node-IsBucket p.bucket node (located_ok t node.long_id p v).0
          (located_in t node.long_id p v)

    pub kept-IsTable : IsTable kept
    kept-IsTable =
        replaced-IsTable t node.long_id p v taken taken-IsBucket (add_node-SameFrame p.bucket node)

    abbrev kept_place : Located kept.buckets node.long_id
    kept_place = record {
      before = p.before;
      bucket = taken;
      after = p.after;
      whole = refl;
      misses = p.misses;
      hit =
          let same = add_node-SameFrame p.bucket node in
          let (low, high) = located_in t node.long_id p v in
          in-covers taken node.long_id (omega (arith, same.lo)) (omega (arith, same.hi));
    }

    pub kept-is_new_node : is_new_node kept node ≡ done (not (add_node p.bucket node).1)
    kept-is_new_node =
        is_new_node-Located kept node kept_place
        ∙ ap (λ a. done (not a)) (contains-add_node p.bucket node)

    pub kept_bucket : get_elem? kept.buckets (bucket_index_for kept node.long_id) ≡ some taken
    kept_bucket = located_get kept node.long_id kept_place

    module _ (wide : p.bucket.lo < p.bucket.hi) where
      halves-IsSplit : IsSplit taken (middle taken) halves
      halves-IsSplit =
          let same = add_node-SameFrame p.bucket node in
          let (fits, _) = located_range t node.long_id p v in
          split-IsSplit now taken taken-IsBucket (omega (arith, same.lo, same.hi))
            (omega (arith, same.hi))

      pub cut-IsTable : IsTable cut
      cut-IsTable =
          halved-IsTable t node.long_id p v taken halves (add_node-SameFrame p.bucket node) wide
            halves-IsSplit

      -- The half that the node falls into, and its width.
      pub cut-Located :
          (k : ℕ)
          → p.bucket.hi - p.bucket.lo < 2 ^ suc k
          → (q : Located cut.buckets node.long_id) × (q.bucket.hi - q.bucket.lo < 2 ^ k)
      cut-Located k narrow =
          let s = halves-IsSplit in
          let same = add_node-SameFrame p.bucket node in
          let (low, high) = located_in t node.long_id p v in
          elim (Bool-cases (leb node.long_id (middle taken))) [
            | inl small ↦ (
              record {
                before = p.before;
                bucket = halves.0;
                after = halves.1 ∷ p.after;
                whole = refl;
                misses = p.misses;
                hit =
                    in-covers halves.0 node.long_id (omega (arith, s.low_lo, same.lo))
                      (ground (arith, s.low_hi));
              },
              omega (arith, s.low_lo, s.low_hi, same.lo, same.hi, pow-suc 2 k),
            )
            | inr large ↦
                let above : middle taken < node.long_id = ground arith in
                (
                  record {
                    before = p.before ++ halves.0 ∷ [];
                    bucket = halves.1;
                    after = p.after;
                    whole = sym (append_assoc p.before (halves.0 ∷ []) (halves.1 ∷ p.after));
                    misses =
                        All-append _ p.before (halves.0 ∷ []) p.misses
                          (out-covers halves.0 node.long_id (omega (arith, s.low_hi)), tt);
                    hit =
                        in-covers halves.1 node.long_id (omega (arith, s.high_lo))
                          (omega (arith, s.high_hi, same.hi));
                  },
                  omega (arith, s.high_lo, s.high_hi, same.lo, same.hi, pow-suc 2 k),
                )
          ]
