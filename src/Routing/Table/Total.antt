-- ===== src/Routing/Table/Total.antt =====
-- `RoutingTable::insert` is total and keeps the invariant, for a node with few twins.
use auth_kademlia.Prelude.{
  ℕ, zero, suc, ◌-◌, ◌^◌, ◌≤◌, ◌<◌, ◌≡◌, refl, ap, ◌∙◌, ◌⊎◌, inl, inr, true, false, not, Option,
  none, some, List, [], ◌∷◌, length, get_elem?, arith,
}
use auth_kademlia.Node.{Node}
use auth_kademlia.Routing.Bucket.{KBucket, add_node, head}
use auth_kademlia.Routing.Table.{
  RoutingTable, Outcome, done, insert_pass, insert, is_new_node, bucket_index_for,
}
use auth_kademlia.Routing.Table.Place.{IsTable, Located, located, bucket_index_for-Located}
use auth_kademlia.Routing.Table.Split.{add_node-SameFrame}
use auth_kademlia.Routing.Table.Twins.{twins}
use auth_kademlia.Routing.Table.Insert.{add_node-Refused, located_ok, located_range}
use auth_kademlia.Routing.Table.OnePass.{
  insert-pass, taken, kept, cut, insert_pass-cases, refused-wide, cut-twins, kept-IsTable,
  kept-is_new_node, kept_bucket, cut-IsTable, cut-Located, after_pass,
}

-- A full bucket of the table that covers the node, and the node at its front.
pub record Crowded (after : RoutingTable) (node n : Node) : Type 0 where
  pub bucket : KBucket
  pub rest : List Node
  pub covering : get_elem? after.buckets (bucket_index_for after node.long_id) ≡ some bucket
  pub front : bucket.nodes ≡ n ∷ rest
  pub crowded : bucket.ksize ≤ length bucket.nodes

-- Whether the table holds the node; where it does not, the one named in its place.
abbrev pub Answered : RoutingTable → Node → Option Node → Type 0
Answered after node lru =
    ((lru ≡ none) × (is_new_node after node ≡ done false))
    ⊎ (((n : Node) × (lru ≡ some n) × Crowded after node n) × (is_new_node after node ≡ done true))

-- The outcome of a call: a table in order, that holds the node, or refuses it and names the node at
-- the front of the full bucket that covers it.
pub record Inserted (t : RoutingTable) (node : Node) (o : Outcome (RoutingTable × Option Node))
    : Type 0 where
  pub after : RoutingTable
  pub lru : Option Node
  pub result : o ≡ done (after, lru)
  pub table_ok : IsTable after
  pub same_node : after.node ≡ t.node
  pub same_size : after.ksize ≡ t.ksize
  pub answer : Answered after node lru

head-some_list :
    (b : KBucket) (ns : List Node)
    → b.nodes ≡ ns
    → 0 < length ns
    → (n : Node) × (rest : List Node) × (head b ≡ some n) × (b.nodes ≡ n ∷ rest)
unfolding head
head-some_list b [] e h = absurd (omega arith)
head-some_list b (n ∷ ns) e h = (n, ns, rw (e, head) refl, e)

refused-head :
    (b : KBucket) (node : Node)
    → 0 < b.ksize
    → (add_node b node).1 ≡ false
    → (n : Node) × (rest : List Node) × (head (add_node b node).0 ≡ some n)
      × ((add_node b node).0.nodes ≡ n ∷ rest)
refused-head b node size full =
    let refused = add_node-Refused b node full in
    head-some_list (add_node b node).0 (add_node b node).0.nodes refl
      (omega (arith, refused.crowded, ap length refused.same))

-- One call, given what its nested call on the halves does.
insert-step :
    (fuel now : ℕ) (t : RoutingTable) (node : Node) (p : Located t.buckets node.long_id)
    → IsTable t
    → 0 < t.ksize
    → ((add_node p.bucket node).1 ≡ false
        → Inserted (cut now t node p) node (insert fuel now (cut now t node p) node))
    → Inserted t node (insert (suc fuel) now t node)
unfolding after_pass
insert-step fuel now t node p v size nested =
    let start =
      insert-pass fuel now t node p
      ∙ ap (λ i. after_pass fuel now node (insert_pass now t node i p.bucket))
          (bucket_index_for-Located t node.long_id p) in
    elim (insert_pass-cases now t node p) [
      | inl (held, pass) ↦ record {
        after = kept now t node p;
        lru = none;
        result = start ∙ ap (after_pass fuel now node) pass;
        table_ok = kept-IsTable now t node p v;
        same_node = refl;
        same_size = refl;
        answer = inl (refl, kept-is_new_node now t node p v ∙ ap (λ a. done (not a)) held);
      }
      | inr (inr (full, pass)) ↦ record {
        after = kept now t node p;
        lru = head (taken now t node p);
        result = start ∙ ap (after_pass fuel now node) pass;
        table_ok = kept-IsTable now t node p v;
        same_node = refl;
        same_size = refl;
        answer =
            inr (refused_at full, kept-is_new_node now t node p v ∙ ap (λ a. done (not a)) full);
      }
      | inr (inl (full, pass)) ↦
          let below = nested full in
          record {
            after = below.after;
            lru = below.lru;
            result = start ∙ ap (after_pass fuel now node) pass ∙ below.result;
            table_ok = below.table_ok;
            same_node = below.same_node;
            same_size = below.same_size;
            answer = below.answer;
          }
    ]
  where
    refused_at :
        (add_node p.bucket node).1 ≡ false
        → (n : Node) × (head (taken now t node p) ≡ some n) × Crowded (kept now t node p) node n
    refused_at full =
        let (n, rest, named, front) =
          refused-head p.bucket node (omega (arith, (located_ok t node.long_id p v).1)) full in
        let refused = add_node-Refused p.bucket node full in
        (
          n,
          named,
          record {
            bucket = taken now t node p;
            rest = rest;
            covering = kept_bucket now t node p v;
            front = front;
            crowded = omega (
              arith,
              refused.crowded,
              ap length refused.same,
              (add_node-SameFrame p.bucket node).ksize,
            );
          },
        )

pub insert-within :
    (k now : ℕ) (t : RoutingTable) (node : Node) (p : Located t.buckets node.long_id)
    → IsTable t
    → twins node t.buckets < t.ksize
    → p.bucket.hi - p.bucket.lo < 2 ^ k
    → Inserted t node (insert (suc k) now t node)
insert-within zero now t node p v few narrow =
    insert-step 0 now t node p v (omega arith)
      (λ full. absurd (omega (arith, refused-wide now t node p v few full)))
insert-within (suc k) now t node p v few narrow =
    insert-step (suc k) now t node p v (omega arith) (λ full.
      let wide = refused-wide now t node p v few full in
      let (q, half) = cut-Located now t node p v wide k narrow in
      insert-within k now (cut now t node p) node q (cut-IsTable now t node p v wide)
        (omega (arith, cut-twins now t node p)) half)

-- For a table in order, a node with fewer than `ksize` twins in it and a 128-bit `long_id`, `insert`
-- returns: 129 calls are enough and no index is out of range. The table after it is in order, for the
-- same local node and bucket size. The answer is `none` and the node is stored; or it is the node at
-- the front, the least recently seen end, of the full bucket that covers the new one, and the new one
-- is not among the contacts.
pub insert-Inserted :
    (now : ℕ) (t : RoutingTable) (node : Node)
    → IsTable t
    → node.long_id < 2 ^ 128
    → twins node t.buckets < t.ksize
    → Inserted t node (insert 129 now t node)
insert-Inserted now t node v fits few =
    let p = located t node.long_id v fits in
    insert-within 128 now t node p v few (omega (arith, (located_range t node.long_id p v).0))
