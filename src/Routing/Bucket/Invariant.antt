-- ===== src/Routing/Bucket/Invariant.antt =====
-- The invariant of `KBucket`, kept by `add_node` and `remove_node`.
use mathlib.Core.List.{Nodup, Nodup-nil, Nodup-cons, mem-append, append-nil}
use mathlib.Core.List.Perm
use mathlib.Core.List.Nodup
use mathlib.Core.List.Sublist
use mathlib.Core.HLevel.{⊥_prop}
use mathlib.Core.Logic.Or
use auth_kademlia.Prelude.{
  ℕ, ◌*◌, ◌≤◌, ◌<◌, ◌≡◌, refl, ap, subst, ◌⊎◌, inl, inr, Option, none, some, List, [], ◌∷◌, ◌++◌,
  length, position, remove_at, retain, not, All, arith, ltb, Bool-cases, Option-cases,
  length-append, All-append, All-remove_at, All-retain, map-retain-sublist, All-append_left,
  All-append_right, length-retain-le,
}
use auth_kademlia.Node.{Node}
use auth_kademlia.Routing.Bucket.{
  KBucket, new, add_node, add_replacement, remove_found, remove_node, remove_primary, without_found,
  has_id, pop_back,
}
use auth_kademlia.Routing.Bucket.Ids.{
  ids, position-none-ids, position-some-ids, snoc-perm, ids-snoc_left, ids-snoc_right,
  pop_front_while-sublist, pop_front_while-le, pop_front_while-All, pop_back-PopsBack, PopsBack,
}

abbrev pub IsIn : KBucket → Node → Type 0
IsIn b n = (b.lo ≤ n.long_id) × (n.long_id ≤ b.hi)

-- At most `ksize` nodes and five times as many replacements, every identifier at most once in both
-- together, all within the range; and a replacement waits only while the bucket is full.
pub record IsBucket (b : KBucket) : Type 0 where
  pub bounded : length b.nodes ≤ b.ksize
  pub capacity : b.max_replacement_nodes ≡ b.ksize * 5
  pub spare : length b.replacement_nodes ≤ b.max_replacement_nodes
  pub distinct : Nodup (ids b.nodes ++ ids b.replacement_nodes)
  pub nodes_in : All (IsIn b) b.nodes
  pub replacements_in : All (IsIn b) b.replacement_nodes
  pub full : (b.replacement_nodes ≡ []) ⊎ (length b.nodes ≡ b.ksize)

pub new-IsBucket : (now lo hi ksize : ℕ) → IsBucket (new now lo hi ksize)
unfolding new
new-IsBucket now lo hi ksize = record {
  bounded = omega arith;
  capacity = refl;
  spare = omega arith;
  distinct = Nodup-nil;
  nodes_in = tt;
  replacements_in = tt;
  full = inl refl;
}

module _ (b : KBucket) (node : Node) (v : IsBucket b) where
  -- The lists after the removal of `node` by `remove_found`, and the identifier in front of them.
  refreshed-IsBucket :
      (i : ℕ)
      → IsIn b node
      → position (has_id node) b.nodes ≡ some i
      → IsBucket (record b { nodes = remove_at b.nodes i ++ node ∷ [] })
  refreshed-IsBucket i here at =
      let (moved, len) = position-some-ids node b.nodes at in
      let len' = length-append (remove_at b.nodes i) (node ∷ []) in
      record {
        bounded = omega (arith, len, len', v.bounded);
        capacity = v.capacity;
        spare = v.spare;
        distinct =
            Perm.nodup
              (Perm.trans (Perm.append_right (ids b.replacement_nodes) moved)
                (Perm.symm (ids-snoc_left (remove_at b.nodes i) b.replacement_nodes node)))
              v.distinct;
        nodes_in = All-append _ _ _ (All-remove_at _ b.nodes i v.nodes_in) (here, tt);
        replacements_in = v.replacements_in;
        full = ground (arith, v.full, len, len');
      }

  appended-IsBucket :
      IsIn b node
      → position (has_id node) b.nodes ≡ none
      → length b.nodes < b.ksize
      → IsBucket (record b { nodes = b.nodes ++ node ∷ [] })
  appended-IsBucket here absent room =
      let none_waits : b.replacement_nodes ≡ [] = ground (arith, v.full) in
      let len' = length-append b.nodes (node ∷ []) in
      record {
        bounded = omega (arith, len');
        capacity = v.capacity;
        spare = v.spare;
        distinct = Perm.nodup (Perm.symm (ids-snoc_left b.nodes b.replacement_nodes node)) (
            Nodup-cons.1
              (rw (none_waits, append-nil) (position-none-ids node b.nodes absent), v.distinct));
        nodes_in = All-append _ _ _ v.nodes_in (here, tt);
        replacements_in = v.replacements_in;
        full = inl none_waits;
      }

  others-perm :
      position (has_id node) b.nodes ≡ none
      → (o : Option ℕ) → position (has_id node) b.replacement_nodes ≡ o
      → Nodup (ids b.nodes ++ ids (remove_found b.replacement_nodes o ++ node ∷ []))
        × All (IsIn b) (remove_found b.replacement_nodes o)
  unfolding remove_found
  others-perm absent none e = (
    Perm.nodup (Perm.symm (ids-snoc_right b.nodes b.replacement_nodes node)) (
        Nodup-cons.1 (
          λ m.
              Or.elim ⊥_prop (mem-append.0 m) (position-none-ids node b.nodes absent)
                (position-none-ids node b.replacement_nodes e),
          v.distinct,
        )),
    v.replacements_in,
  )
  others-perm absent (some i) e =
      let (moved, _) = position-some-ids node b.replacement_nodes e in
      (
        Perm.nodup
            (Perm.append_left (ids b.nodes) (
              Perm.trans moved (
                Perm.symm
                  (Perm.map (λ n. n.id) (snoc-perm (remove_at b.replacement_nodes i) node)))))
            v.distinct,
        All-remove_at _ b.replacement_nodes i v.replacements_in,
      )

  add_replacement-IsBucket :
      IsIn b node
      → position (has_id node) b.nodes ≡ none
      → b.ksize ≤ length b.nodes
      → IsBucket (add_replacement b node)
  unfolding add_replacement
  add_replacement-IsBucket here absent crowded =
      let found = position (has_id node) b.replacement_nodes in
      let (distinct, inside) = others-perm absent found refl in
      let others = remove_found b.replacement_nodes found ++ node ∷ [] in
      record {
        bounded = v.bounded;
        capacity = v.capacity;
        spare = pop_front_while-le b.max_replacement_nodes others;
        distinct =
            Nodup.sublist
              (Sublist.append (Sublist.refl (ids b.nodes))
                (pop_front_while-sublist b.max_replacement_nodes others))
              distinct;
        nodes_in = v.nodes_in;
        replacements_in =
            pop_front_while-All _ b.max_replacement_nodes others
              (All-append _ _ _ inside (here, tt));
        full = inr (omega (arith, v.bounded));
      }

  -- `add_node` keeps the invariant of a bucket, for a node in its range.
  pub add_node-IsBucket : IsIn b node → IsBucket (add_node b node).0
  unfolding add_node
  add_node-IsBucket here = elim (Option-cases (position (has_id node) b.nodes)) [
    | inl absent ↦
        rw (absent, add_node)
          (elim (Bool-cases (ltb (length b.nodes) b.ksize)) [
            | inl room ↦ rw room (appended-IsBucket here absent (ground arith))
            | inr crowded ↦ rw crowded (add_replacement-IsBucket here absent (ground arith))
          ])
    | inr (i, at) ↦ rw (at, add_node) (refreshed-IsBucket i here at)
  ]

  -- The bucket without `node` among the replacements.
  abbrev pruned : KBucket
  pruned = record b { replacement_nodes = retain (λ n. not (has_id node n)) b.replacement_nodes }

  pruned-IsBucket : IsBucket pruned
  unfolding retain
  pruned-IsBucket = record {
    bounded = v.bounded;
    capacity = v.capacity;
    spare = omega (arith, length-retain-le (λ n. not (has_id node n)) b.replacement_nodes, v.spare);
    distinct =
        Nodup.sublist
          (Sublist.append (Sublist.refl (ids b.nodes))
            (map-retain-sublist (λ n. n.id) (λ n. not (has_id node n)) b.replacement_nodes))
          v.distinct;
    nodes_in = v.nodes_in;
    replacements_in = All-retain _ _ b.replacement_nodes v.replacements_in;
    full = pruned_full v.full;
  }
    where
      pruned_full :
          (b.replacement_nodes ≡ []) ⊎ (length b.nodes ≡ b.ksize)
          → (pruned.replacement_nodes ≡ []) ⊎ (length b.nodes ≡ b.ksize)
      pruned_full (inl e) = inl (rw (e, retain) refl)
      pruned_full (inr e) = inr e

waits_full :
    (b : KBucket) (front : List Node) (last : Node)
    → b.replacement_nodes ≡ front ++ last ∷ []
    → (b.replacement_nodes ≡ []) ⊎ (length b.nodes ≡ b.ksize)
    → length b.nodes ≡ b.ksize
waits_full b front last whole (inl e) =
    absurd (omega (arith, ap length e, ap length whole, length-append front (last ∷ [])))
waits_full b front last whole (inr e) = e

module _ (b : KBucket) (node : Node) (v : IsBucket b) (i : ℕ)
    (at : position (has_id node) b.nodes ≡ some i) where
  dropped-IsBucket : b.replacement_nodes ≡ [] → IsBucket (record b { nodes = remove_at b.nodes i })
  dropped-IsBucket none_waits =
      let (moved, len) = position-some-ids node b.nodes at in
      record {
        bounded = omega (arith, len, v.bounded);
        capacity = v.capacity;
        spare = v.spare;
        distinct =
            (Nodup-cons.0
              (Perm.nodup (Perm.append_right (ids b.replacement_nodes) moved) v.distinct)).1;
        nodes_in = All-remove_at _ b.nodes i v.nodes_in;
        replacements_in = v.replacements_in;
        full = inl none_waits;
      }

  promoted-IsBucket :
      (front : List Node) (last : Node)
      → b.replacement_nodes ≡ front ++ last ∷ []
      → IsBucket (record b { nodes = remove_at b.nodes i ++ last ∷ []; replacement_nodes = front })
  promoted-IsBucket front last whole =
      let (moved, len) = position-some-ids node b.nodes at in
      let len' = length-append (remove_at b.nodes i) (last ∷ []) in
      let inside : All (IsIn b) (front ++ last ∷ []) = rw (← whole) v.replacements_in in
      let waits : length b.nodes ≡ b.ksize = waits_full b front last whole v.full in
      record {
        bounded = omega (arith, len, len', v.bounded);
        capacity = v.capacity;
        spare = omega (arith, ap length whole, length-append front (last ∷ []), v.spare);
        distinct =
            Perm.nodup
              (Perm.trans (ids-snoc_right (remove_at b.nodes i) front last)
                (Perm.symm (ids-snoc_left (remove_at b.nodes i) front last)))
              (subst (λ r. Nodup (ids (remove_at b.nodes i) ++ ids r)) whole
                (Nodup-cons.0
                  (Perm.nodup (Perm.append_right (ids b.replacement_nodes) moved) v.distinct)).1);
        nodes_in =
            All-append _ _ _ (All-remove_at _ b.nodes i v.nodes_in)
              (All-append_right _ front (last ∷ []) inside);
        replacements_in = All-append_left _ front (last ∷ []) inside;
        full = inr (omega (arith, len, len', waits));
      }

without_found-IsBucket :
    (b : KBucket) (node : Node) (i : ℕ) (o : Option (List Node × Node))
    → IsBucket b
    → position (has_id node) b.nodes ≡ some i
    → PopsBack b.replacement_nodes o
    → IsBucket (without_found b i o)
unfolding without_found
without_found-IsBucket b node i none v at h = dropped-IsBucket b node v i at h
without_found-IsBucket b node i (some (front, last)) v at h =
    promoted-IsBucket b node v i at front last h

remove_primary-IsBucket :
    (b : KBucket) (node : Node) → IsBucket b → IsBucket (remove_primary b node)
unfolding remove_primary
remove_primary-IsBucket b node v = elim (Option-cases (position (has_id node) b.nodes)) [
  | inl absent ↦ rw (absent, remove_primary) v
  | inr (i, at) ↦
      rw (at, remove_primary)
        (without_found-IsBucket b node i (pop_back b.replacement_nodes) v at
          (pop_back-PopsBack b.replacement_nodes))
]

-- `remove_node` keeps the invariant of a bucket, also where it moves a replacement up.
pub remove_node-IsBucket : (b : KBucket) (node : Node) → IsBucket b → IsBucket (remove_node b node)
unfolding remove_node
remove_node-IsBucket b node v =
    remove_primary-IsBucket (pruned b node v) node (pruned-IsBucket b node v)
