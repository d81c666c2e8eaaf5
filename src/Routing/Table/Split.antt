-- ===== src/Routing/Table/Split.antt =====
-- `KBucket::split`: the halves keep the invariant and share the range.
use auth_kademlia.Prelude.{
  ℕ, suc, ◌+◌, ◌-◌, ◌/◌, ◌%◌, ◌^◌, ◌≤◌, ◌<◌, ◌≡◌, refl, ◌∙◌, List, [], ◌∷◌, ◌++◌, All, arith, leb,
  Bool-cases, All-append, inl, inr,
}
use auth_kademlia.Node.{Node}
use auth_kademlia.Routing.Bucket.{KBucket, new, add_node, add_replacement, split, split_loop}
use auth_kademlia.Routing.Bucket.Invariant.{IsBucket, IsIn, new-IsBucket, add_node-IsBucket}

-- What `add_node` leaves alone.
pub record SameFrame (b c : KBucket) : Type 0 where
  pub lo : c.lo ≡ b.lo
  pub hi : c.hi ≡ b.hi
  pub ksize : c.ksize ≡ b.ksize

pub add_node-SameFrame : (b : KBucket) (n : Node) → SameFrame b (add_node b n).0
unfolding add_node add_replacement
add_node-SameFrame b n = ground arith

-- The two buckets of the loop, over the halves of a range cut behind `mid`.
pub record IsSplit (b : KBucket) (mid : ℕ) (h : KBucket × KBucket) : Type 0 where
  pub low_ok : IsBucket h.0
  pub high_ok : IsBucket h.1
  pub low_lo : h.0.lo ≡ b.lo
  pub low_hi : h.0.hi ≡ mid
  pub high_lo : h.1.lo ≡ suc mid
  pub high_hi : h.1.hi ≡ b.hi
  pub low_size : h.0.ksize ≡ b.ksize
  pub high_size : h.1.ksize ≡ b.ksize

IsSplit-low :
    (b : KBucket) (mid : ℕ) (low high : KBucket) (n : Node)
    → IsIn b n
    → n.long_id ≤ mid
    → IsSplit b mid (low, high)
    → IsSplit b mid ((add_node low n).0, high)
IsSplit-low b mid low high n inside small v =
    let same = add_node-SameFrame low n in
    record {
      low_ok = add_node-IsBucket low n v.low_ok (omega (arith, v.low_lo), omega (arith, v.low_hi));
      high_ok = v.high_ok;
      low_lo = same.lo ∙ v.low_lo;
      low_hi = same.hi ∙ v.low_hi;
      high_lo = v.high_lo;
      high_hi = v.high_hi;
      low_size = same.ksize ∙ v.low_size;
      high_size = v.high_size;
    }

IsSplit-high :
    (b : KBucket) (mid : ℕ) (low high : KBucket) (n : Node)
    → IsIn b n
    → mid < n.long_id
    → IsSplit b mid (low, high)
    → IsSplit b mid (low, (add_node high n).0)
IsSplit-high b mid low high n inside large v =
    let same = add_node-SameFrame high n in
    record {
      low_ok = v.low_ok;
      high_ok =
          add_node-IsBucket high n v.high_ok (omega (arith, v.high_lo), omega (arith, v.high_hi));
      low_lo = v.low_lo;
      low_hi = v.low_hi;
      high_lo = same.lo ∙ v.high_lo;
      high_hi = same.hi ∙ v.high_hi;
      low_size = v.low_size;
      high_size = same.ksize ∙ v.high_size;
    }

split_loop-IsSplit :
    (b : KBucket) (mid : ℕ) (low high : KBucket) (ns : List Node)
    → All (IsIn b) ns
    → IsSplit b mid (low, high)
    → IsSplit b mid (split_loop mid (low, high) ns)
unfolding split_loop
split_loop-IsSplit b mid low high [] inside v = v
split_loop-IsSplit b mid low high (n ∷ ns) inside v = elim (Bool-cases (leb n.long_id mid)) [
  | inl small ↦
      rw (small, split_loop)
        (split_loop-IsSplit b mid (add_node low n).0 high ns inside.1
          (IsSplit-low b mid low high n inside.0 (ground arith) v))
  | inr large ↦
      rw (large, split_loop)
        (split_loop-IsSplit b mid low (add_node high n).0 ns inside.1
          (IsSplit-high b mid low high n inside.0 (ground arith) v))
]

abbrev pub middle : KBucket → ℕ
middle b = b.lo + (b.hi - b.lo) / 2

-- A bucket of more than one point is split in two that keep the invariant, meet at the middle and
-- fill the old range.
pub split-IsSplit :
    (now : ℕ) (b : KBucket)
    → IsBucket b
    → b.lo < b.hi
    → b.hi < 2 ^ 128
    → IsSplit b (middle b) (split now b)
unfolding split new
split-IsSplit now b v wide fits =
    split_loop-IsSplit b (middle b) (new now b.lo (middle b) b.ksize)
      (new now ((middle b + 1) % 2 ^ 128) b.hi b.ksize) (b.nodes ++ b.replacement_nodes)
      (All-append _ b.nodes b.replacement_nodes v.nodes_in v.replacements_in)
      (record {
        low_ok = new-IsBucket now b.lo (middle b) b.ksize;
        high_ok = new-IsBucket now ((middle b + 1) % 2 ^ 128) b.hi b.ksize;
        low_lo = refl;
        low_hi = refl;
        high_lo = omega arith;
        high_hi = refl;
        low_size = refl;
        high_size = refl;
      })
