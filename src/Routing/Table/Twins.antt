-- ===== src/Routing/Table/Twins.antt =====
-- The twins of a node: contacts with another identifier and the same `long_id`. No operation of the
-- table on this node adds one.
use auth_kademlia.Prelude.{
  ℕ, zero, suc, ◌+◌, ◌-◌, ◌/◌, ◌%◌, ◌^◌, ◌≤◌, ◌≡◌, refl, false, ◌&&◌, not, Option, none, some, List,
  [], ◌∷◌, ◌++◌, length, position, remove_at, All, arith, ltb, ◌==◌, leb, if◌then◌else◌, Bool-cases,
  Option-cases, inl, inr, position_absent,
}
use auth_kademlia.Node.{Node, same_id}
use auth_kademlia.Routing.Bucket.{
  KBucket, new, add_node, add_replacement, remove_found, pop_front_while, split, split_loop, has_id,
}

-- 1 for a twin, and else 0.
unfoldable pub is_twin : Node → Node → ℕ
is_twin node n = if n.long_id == node.long_id && not (same_id n.id node.id) then 1 else 0

unfoldable pub twins_in : Node → List Node → ℕ
twins_in node [] = 0
twins_in node (n ∷ ns) = is_twin node n + twins_in node ns

unfoldable pub twins_of : Node → KBucket → ℕ
twins_of node b = twins_in node b.nodes + twins_in node b.replacement_nodes

unfoldable pub twins : Node → List KBucket → ℕ
twins node [] = 0
twins node (b ∷ bs) = twins_of node b + twins node bs

module _ (node : Node) where
  twins_in-append :
      (xs ys : List Node) → twins_in node (xs ++ ys) ≡ twins_in node xs + twins_in node ys
  unfolding twins_in
  twins_in-append [] ys = omega arith
  twins_in-append (x ∷ xs) ys = omega (arith, twins_in-append xs ys)

  twins_in-remove_at : (ns : List Node) (i : ℕ) → twins_in node (remove_at ns i) ≤ twins_in node ns
  unfolding twins_in remove_at
  twins_in-remove_at [] i = omega arith
  twins_in-remove_at (n ∷ ns) zero = omega arith
  twins_in-remove_at (n ∷ ns) (suc i) = omega (arith, twins_in-remove_at ns i)

  twins_in-pop_front_while :
      (max : ℕ) (ns : List Node) → twins_in node (pop_front_while max ns) ≤ twins_in node ns
  unfolding twins_in pop_front_while
  twins_in-pop_front_while max [] = omega arith
  twins_in-pop_front_while max (n ∷ ns) = ground (arith, twins_in-pop_front_while max ns)

  twins_in-snoc :
      (ns : List Node) (n : Node) → twins_in node (ns ++ n ∷ []) ≡ twins_in node ns + is_twin node n
  unfolding twins_in
  twins_in-snoc [] n = omega arith
  twins_in-snoc (x ∷ ns) n = omega (arith, twins_in-snoc ns n)

  remove_found-le :
      (ns : List Node) (o : Option ℕ) → twins_in node (remove_found ns o) ≤ twins_in node ns
  unfolding remove_found
  remove_found-le ns none = omega arith
  remove_found-le ns (some i) = twins_in-remove_at ns i

  add_replacement-le :
      (b : KBucket) (n : Node)
      → twins_of node (add_replacement b n) ≤ twins_of node b + is_twin node n
  unfolding twins_of add_replacement
  add_replacement-le b n =
      let found = position (has_id n) b.replacement_nodes in
      let others = remove_found b.replacement_nodes found in
      omega (
        arith,
        twins_in-pop_front_while b.max_replacement_nodes (others ++ n ∷ []),
        twins_in-snoc others n,
        remove_found-le b.replacement_nodes found,
      )

  pub add_node-twins :
      (b : KBucket) (n : Node) → twins_of node (add_node b n).0 ≤ twins_of node b + is_twin node n
  unfolding twins_of add_node
  add_node-twins b n = elim (Option-cases (position (has_id n) b.nodes)) [
    | inr (i, at) ↦
        rw (at, add_node)
          (omega (arith, twins_in-snoc (remove_at b.nodes i) n, twins_in-remove_at b.nodes i))
    | inl absent ↦
        rw (absent, add_node)
          (elim (Bool-cases (ltb (length b.nodes) b.ksize)) [
            | inl room ↦ rw room (omega (arith, twins_in-snoc b.nodes n))
            | inr crowded ↦ rw crowded (unfold twins_of in add_replacement-le b n)
          ])
  ]

  split_loop-twins :
      (mid : ℕ) (low high : KBucket) (ns : List Node)
      → twins_of node (split_loop mid (low, high) ns).0
          + twins_of node (split_loop mid (low, high) ns).1
        ≤ twins_of node low + twins_of node high + twins_in node ns
  unfolding split_loop twins_in
  split_loop-twins mid low high [] = omega arith
  split_loop-twins mid low high (n ∷ ns) = elim (Bool-cases (leb n.long_id mid)) [
    | inl small ↦
        rw (small, split_loop)
          (omega (arith, split_loop-twins mid (add_node low n).0 high ns, add_node-twins low n))
    | inr large ↦
        rw (large, split_loop)
          (omega (arith, split_loop-twins mid low (add_node high n).0 ns, add_node-twins high n))
  ]

  new-twins : (now lo hi ksize : ℕ) → twins_of node (new now lo hi ksize) ≡ 0
  unfolding twins_of twins_in new
  new-twins now lo hi ksize = omega arith

  parts :
      (b : KBucket) → twins_of node b ≡ twins_in node b.nodes + twins_in node b.replacement_nodes
  unfolding twins_of
  parts b = refl

  pub split-twins :
      (now : ℕ) (b : KBucket)
      → twins_of node (split now b).0 + twins_of node (split now b).1 ≤ twins_of node b
  unfolding split
  split-twins now b =
      let mid = b.lo + (b.hi - b.lo) / 2 in
      let low = new now b.lo mid b.ksize in
      let high = new now ((mid + 1) % 2 ^ 128) b.hi b.ksize in
      omega (
        arith,
        split_loop-twins mid low high (b.nodes ++ b.replacement_nodes),
        new-twins now b.lo mid b.ksize,
        new-twins now ((mid + 1) % 2 ^ 128) b.hi b.ksize,
        twins_in-append b.nodes b.replacement_nodes,
        parts b,
      )

  pub self-is_twin : is_twin node node ≡ 0
  unfolding is_twin
  self-is_twin = ground arith

  pub twins-append : (xs ys : List KBucket) → twins node (xs ++ ys) ≡ twins node xs + twins node ys
  unfolding twins
  twins-append [] ys = omega arith
  twins-append (x ∷ xs) ys = omega (arith, twins-append xs ys)

  pub twins-middle :
      (before after : List KBucket) (b : KBucket)
      → twins node (before ++ b ∷ after) ≡ twins node before + twins_of node b + twins node after
  unfolding twins
  twins-middle before after b = omega (arith, twins-append before (b ∷ after))

  pub twins-middle_two :
      (before after : List KBucket) (b c : KBucket)
      → twins node (before ++ b ∷ c ∷ after)
        ≡ twins node before + twins_of node b + twins_of node c + twins node after
  unfolding twins
  twins-middle_two before after b c = omega (arith, twins-append before (b ∷ c ∷ after))

  All-twins :
      (ns : List Node)
      → All (λ n. has_id node n ≡ false) ns
      → All (λ n. n.long_id ≡ node.long_id) ns
      → twins_in node ns ≡ length ns
  unfolding twins_in is_twin
  All-twins [] absent same = refl
  All-twins (n ∷ ns) absent same = ground (arith, All-twins ns absent.1 same.1, absent.0, same.0)

  -- A bucket of one point without the node: all its nodes are twins.
  pub point-twins :
      (b : KBucket)
      → All (λ n. n.long_id ≡ node.long_id) b.nodes
      → position (has_id node) b.nodes ≡ none
      → length b.nodes ≤ twins_of node b
  unfolding twins_of
  point-twins b same absent =
      omega (arith, All-twins b.nodes (position_absent (has_id node) b.nodes absent) same)
