-- ===== src/Routing/Bucket.antt =====
-- `KBucket`. A deque is a list from front to back: least recently seen first.
pub mod Ids
pub mod Invariant
use auth_kademlia.Prelude.{
  ℕ, zero, suc, ◌+◌, ◌-◌, ◌*◌, ◌/◌, ◌%◌, ◌^◌, Bool, true, false, ◌&&◌, ◌||◌, not, Option, none,
  some, List, [], ◌∷◌, ◌++◌, length, any, position, retain, remove_at, get_or, ltb, leb, ◌==◌,
  if◌then◌else◌,
}
use auth_kademlia.Prelude.Bytes.{Bytes}
use auth_kademlia.Node.{Node, same_id, id_len}

-- The range is `lo ..= hi`; `last_updated` is in seconds.
pub record KBucket : Type 0 where
  pub lo : ℕ
  pub hi : ℕ
  pub nodes : List Node
  pub replacement_nodes : List Node
  pub ksize : ℕ
  pub max_replacement_nodes : ℕ
  pub last_updated : ℕ

unfoldable pub new : ℕ → ℕ → ℕ → ℕ → KBucket
new now lo hi ksize = record {
  lo = lo;
  hi = hi;
  nodes = [];
  replacement_nodes = [];
  ksize = ksize;
  max_replacement_nodes = ksize * 5;
  last_updated = now;
}

unfoldable pub touch_last_updated : ℕ → KBucket → KBucket
touch_last_updated now b = record b { last_updated = now }

-- `while self.replacement_nodes.len() > self.max_replacement_nodes { pop_front }`.
unfoldable pub pop_front_while : ℕ → List Node → List Node
pop_front_while max [] = []
pop_front_while max (n ∷ ns) =
    let rest = pop_front_while max ns in if ltb max (length (n ∷ ns)) then rest else n ∷ ns

abbrev pub has_id : Node → Node → Bool
has_id node n = same_id n.id node.id

-- `if let Some(pos) = list.iter().position(..) { list.remove(pos); }`.
unfoldable pub remove_found : List Node → Option ℕ → List Node
remove_found ns none = ns
remove_found ns (some pos) = remove_at ns pos

-- The part of `add_node` for a full bucket.
unfoldable pub add_replacement : KBucket → Node → KBucket
unfolding pop_front_while remove_found
add_replacement b node =
    let others = remove_found b.replacement_nodes (position (has_id node) b.replacement_nodes) in
    record b { replacement_nodes = pop_front_while b.max_replacement_nodes (others ++ node ∷ []) }

unfoldable pub add_node : KBucket → Node → KBucket × Bool
add_node b node = elim (position (has_id node) b.nodes) [
  | some pos ↦ (record b { nodes = remove_at b.nodes pos ++ node ∷ [] }, true)
  | none ↦
      if ltb (length b.nodes) b.ksize
      then (record b { nodes = b.nodes ++ node ∷ [] }, true)
      else (add_replacement b node, false)
]

unfoldable pub pop_back_step : Node → Option (List Node × Node) → Option (List Node × Node)
pop_back_step n none = some ([], n)
pop_back_step n (some (front, last)) = some (n ∷ front, last)

-- `VecDeque::pop_back`.
unfoldable pub pop_back : List Node → Option (List Node × Node)
unfolding pop_back_step
pop_back [] = none
pop_back (n ∷ ns) = pop_back_step n (pop_back ns)

-- The primary list loses position `i`, and gains the replacement that `pop_back` gave, if any.
unfoldable pub without_found : KBucket → ℕ → Option (List Node × Node) → KBucket
without_found b i none = record b { nodes = remove_at b.nodes i }
without_found b i (some (front, last)) = record b {
  nodes = remove_at b.nodes i ++ last ∷ [];
  replacement_nodes = front;
}

-- `remove_node` after the replacement list has lost the node.
unfoldable pub remove_primary : KBucket → Node → KBucket
unfolding pop_back without_found
remove_primary b node = elim (position (has_id node) b.nodes) [
  | none ↦ b
  | some pos ↦ without_found b pos (pop_back b.replacement_nodes)
]

unfoldable pub remove_node : KBucket → Node → KBucket
remove_node b node =
    remove_primary
      (record b { replacement_nodes = retain (λ n. not (has_id node n)) b.replacement_nodes }) node

unfoldable pub contains : KBucket → Node → Bool
contains b node = any (has_id node) b.nodes

-- The loop of `split` over the primary and then the replacement nodes.
unfoldable pub split_loop : ℕ → KBucket × KBucket → List Node → KBucket × KBucket
split_loop mid (low, high) [] = (low, high)
split_loop mid (low, high) (n ∷ ns) =
    split_loop mid
      (if leb n.long_id mid then ((add_node low n).0, high) else (low, (add_node high n).0)) ns

-- `mid + 1` is a `u128`.
unfoldable pub split : ℕ → KBucket → KBucket × KBucket
split now b =
    let mid = b.lo + (b.hi - b.lo) / 2 in
    split_loop mid (new now b.lo mid b.ksize, new now ((mid + 1) % 2 ^ 128) b.hi b.ksize)
      (b.nodes ++ b.replacement_nodes)

-- Bit `shift` of byte `byte_idx` of an identifier.
abbrev pub bit_at : Bytes → ℕ → ℕ → ℕ
bit_at id byte_idx shift = get_or id byte_idx 0 / 2 ^ shift % 2

-- The inner loop of `depth`, over the shifts from `n - 1` down: the bits that all nodes share, and
-- whether the loop came to its end.
unfoldable pub depth_shifts : List Node → Bytes → ℕ → ℕ → ℕ × Bool
depth_shifts others first byte_idx zero = (0, true)
depth_shifts others first byte_idx (suc shift) =
    let rest = depth_shifts others first byte_idx shift in
    if any (λ n. not (bit_at n.id byte_idx shift == bit_at first byte_idx shift)) others
    then (0, false)
    else (suc rest.0, rest.1)

-- The outer loop, over the bytes that are left.
unfoldable pub depth_bytes : List Node → Bytes → ℕ → ℕ → ℕ
depth_bytes others first byte_idx zero = 0
depth_bytes others first byte_idx (suc left) =
    let here = depth_shifts others first byte_idx 8 in
    let rest = depth_bytes others first (suc byte_idx) left in
    if here.1 then here.0 + rest else here.0

unfoldable pub depth : KBucket → ℕ
unfolding depth_bytes depth_shifts
depth b = elim b.nodes [
  | [] ↦ 0
  | first ∷ others ↦ elim others [
    | [] ↦ length first.id * 8
    | n ∷ ns ↦ depth_bytes (n ∷ ns) first.id 0 (length first.id)
  ]
]

unfoldable pub is_lonely : ℕ → KBucket → Bool
is_lonely now b = ltb 3600 (now - b.last_updated)

unfoldable pub head : KBucket → Option Node
head b = elim b.nodes [ [] ↦ none | n ∷ _ ↦ some n ]

unfoldable pub covers : KBucket → ℕ → Bool
covers b long_id = leb b.lo long_id && leb long_id b.hi
