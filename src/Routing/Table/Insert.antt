-- ===== src/Routing/Table/Insert.antt =====
-- The located bucket of a table: what `add_node` answers for it, and tables with one bucket or two
-- halves in its place.
use auth_kademlia.Prelude.{
  ℕ, suc, ◌^◌, ◌≤◌, ◌<◌, ◌≡◌, refl, sym, ap, subst, ◌∙◌, inl, inr, true, false, none, List, [], ◌∷◌,
  ◌++◌, length, position, All, arith, ltb, Bool-cases, Option-cases, any,
}
use auth_kademlia.Node.{Node}
use auth_kademlia.Routing.Bucket
use auth_kademlia.Routing.Bucket.{
  KBucket, add_node, add_replacement, split, depth, head, covers, has_id,
}
use auth_kademlia.Routing.Bucket.Invariant.{IsBucket}
use auth_kademlia.Routing.Table.{RoutingTable}
use auth_kademlia.Routing.Table.Place.{
  IsTable, Located, Spans, Spans-replace, Spans-split, Spans-hi-lt, All-middle, All-replace,
}
use auth_kademlia.Routing.Table.Split.{IsSplit, SameFrame, middle}

-- The table with the buckets `cs` in the place of the located one.
abbrev pub put_in : (t : RoutingTable) {l : ℕ} → Located t.buckets l → List KBucket → RoutingTable
put_in t p cs = record t { buckets = p.before ++ (cs ++ p.after) }

-- What `add_node` answers is whether the node is in the primary list afterwards.
contains-append : (node : Node) (ns : List Node) → any (has_id node) (ns ++ node ∷ []) ≡ true
unfolding any
contains-append node [] = ground arith
contains-append node (n ∷ ns) = ground (arith, contains-append node ns)

-- A node that is refused leaves a full primary list as it was.
pub record Refused (b : KBucket) (node : Node) : Type 0 where
  pub absent : position (has_id node) b.nodes ≡ none
  pub crowded : b.ksize ≤ length b.nodes
  pub same : (add_node b node).0.nodes ≡ b.nodes

pub add_node-Refused : (b : KBucket) (node : Node) → (add_node b node).1 ≡ false → Refused b node
unfolding add_node add_replacement
add_node-Refused b node h = ground arith

absent-any :
    (node : Node) (ns : List Node) → position (has_id node) ns ≡ none → any (has_id node) ns ≡ false
unfolding any position
absent-any node [] h = refl
absent-any node (n ∷ ns) h = ground (arith, absent-any node ns)

pub contains-add_node :
    (b : KBucket) (node : Node) → Bucket.contains (add_node b node).0 node ≡ (add_node b node).1
unfolding add_node add_replacement Bucket.contains
contains-add_node b node = elim (Option-cases (position (has_id node) b.nodes)) [
  | inr (i, at) ↦ rw (at, add_node) (contains-append node _)
  | inl absent ↦
      rw (absent, add_node)
        (elim (Bool-cases (ltb (length b.nodes) b.ksize)) [
          | inl room ↦ rw room (contains-append node b.nodes)
          | inr crowded ↦ rw crowded (absent-any node b.nodes absent)
        ])
]

covers-in : (b : KBucket) (l : ℕ) → covers b l ≡ true → (b.lo ≤ l) × (l ≤ b.hi)
unfolding covers
covers-in b l h = ground arith

pub in-covers : (b : KBucket) (l : ℕ) → b.lo ≤ l → l ≤ b.hi → covers b l ≡ true
unfolding covers
in-covers b l lo hi = ground arith

pub out-covers : (b : KBucket) (l : ℕ) → b.hi < l → covers b l ≡ false
unfolding covers
out-covers b l hi = ground arith

module _ (t : RoutingTable) (l : ℕ) (p : Located t.buckets l) (v : IsTable t) where
  pub located_ok : IsBucket p.bucket × (p.bucket.ksize ≡ t.ksize)
  located_ok = All-middle _ p.before p.after p.bucket (subst (All _) p.whole v.buckets_ok)

  located-Spans : Spans 0 (p.before ++ p.bucket ∷ p.after) (2 ^ 128)
  located-Spans = subst (λ bs. Spans 0 bs (2 ^ 128)) p.whole v.spans

  pub located_in : (p.bucket.lo ≤ l) × (l ≤ p.bucket.hi)
  located_in = covers-in p.bucket l p.hit

  pub located_range : (p.bucket.hi < 2 ^ 128) × (p.bucket.lo ≤ p.bucket.hi)
  located_range = Spans-hi-lt 0 (2 ^ 128) p.before p.after p.bucket located-Spans

  -- One bucket of the same range in the place of the located one.
  pub replaced-IsTable :
      (c : KBucket) → IsBucket c → SameFrame p.bucket c → IsTable (put_in t p (c ∷ []))
  replaced-IsTable c ok same = record {
    spans = Spans-replace 0 (2 ^ 128) p.before p.after p.bucket c same.lo same.hi located-Spans;
    buckets_ok =
        All-replace _ p.before p.after p.bucket (c ∷ []) (subst (All _) p.whole v.buckets_ok)
          ((ok, same.ksize ∙ located_ok.1), tt);
  }

  -- Two halves in its place.
  pub halved-IsTable :
      (c : KBucket) (h : KBucket × KBucket)
      → SameFrame p.bucket c
      → p.bucket.lo < p.bucket.hi
      → IsSplit c (middle c) h
      → IsTable (put_in t p (h.0 ∷ h.1 ∷ []))
  halved-IsTable c h same wide s = record {
    spans =
        Spans-split 0 (2 ^ 128) p.before p.after p.bucket h.0 h.1 (s.low_lo ∙ same.lo)
          (omega (arith, s.low_lo, s.low_hi)) (s.high_lo ∙ ap suc (sym s.low_hi))
          (omega (arith, s.high_lo, s.high_hi, same.lo, same.hi)) (s.high_hi ∙ same.hi)
          located-Spans;
    buckets_ok =
        All-replace _ p.before p.after p.bucket (h.0 ∷ h.1 ∷ [])
          (subst (All _) p.whole v.buckets_ok)
          (
            (s.low_ok, s.low_size ∙ same.ksize ∙ located_ok.1),
            ((s.high_ok, s.high_size ∙ same.ksize ∙ located_ok.1), tt),
          );
  }
