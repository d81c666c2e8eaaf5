-- ===== src/Crawling.antt =====
-- src/crawling.rs: the iterative lookups. What a peer answers to a query is the function `respond`:
-- a crawl asks no identifier twice. The `HashMap` of answers is read in an order that `order`
-- chooses, and the one of counted values in an order that `order_counts` chooses.
pub mod Contacts
pub mod Rounds
pub mod NodeLookup
pub mod Majority
pub mod ValueRounds
pub mod ValueLookup
mod Tests
use auth_kademlia.Prelude.{
  ℕ, zero, suc, ◌+◌, Bool, true, false, not, Option, none, some, List, [], ◌∷◌, ◌++◌, map, length,
  take, leb, ◌==◌, if◌then◌else◌,
}
use mathlib.Core.Option
use auth_kademlia.Prelude.Assoc
use auth_kademlia.Prelude.Bytes.{Bytes, bytes_eq}
use auth_kademlia.Node
use auth_kademlia.Node.{id_len, same_id}
use auth_kademlia.NodeHeap
use auth_kademlia.NodeHeap.{
  NodeHeap, push, push_one, remove, get_ids, len, get_uncontacted, mark_contacted,
  have_contacted_all, to_vec, get_node, popleft,
}

-- An `(id_bytes, ip, port)` triple.
abbrev pub Triple : Type 0
Triple = Bytes × Option Bytes × Option ℕ

pub data FindPayload : Type 0 where
  payload_nodes : List Triple → FindPayload
  payload_value : Bytes → FindPayload
  payload_empty : FindPayload

pub record RawResponse : Type 0 where
  pub happened : Bool
  pub payload : FindPayload

unfoldable pub has_value : RawResponse → Bool
has_value r = elim r.payload [
  | payload_nodes _ ↦ false
  | payload_value _ ↦ true
  | payload_empty ↦ false
]

unfoldable pub get_value : RawResponse → Option Bytes
get_value r = elim r.payload [
  | payload_nodes _ ↦ none
  | payload_value v ↦ some v
  | payload_empty ↦ none
]

-- The triples with an identifier of the right length, as nodes.
unfoldable pub decode_triples : List Triple → List Node.Node
decode_triples [] = []
decode_triples ((id_bytes, ip, port) ∷ ts) =
    let rest = decode_triples ts in
    if length id_bytes == id_len then Node.new id_bytes ip port ∷ rest else rest

unfoldable pub get_node_list : RawResponse → List Node.Node
get_node_list r = elim r.payload [
  | payload_nodes triples ↦ decode_triples triples
  | payload_value _ ↦ []
  | payload_empty ↦ []
]

pub record SpiderCrawl : Type 0 where
  pub ksize : ℕ
  pub alpha : ℕ
  pub node : Node.Node
  pub nearest : NodeHeap
  pub last_ids_crawled : List Bytes

unfoldable pub new : Node.Node → List Node.Node → ℕ → ℕ → SpiderCrawl
new node peers ksize alpha = record {
  ksize = ksize;
  alpha = alpha;
  node = node;
  nearest = push (NodeHeap.new node ksize) peers;
  last_ids_crawled = [];
}

-- `==` on lists of identifiers.
unfoldable pub same_ids : List Bytes → List Bytes → Bool
same_ids [] [] = true
same_ids (x ∷ xs) (y ∷ ys) = let rest = same_ids xs ys in if same_id x y then rest else false
same_ids _ _ = false

unfoldable pub mark_all : NodeHeap → List Node.Node → NodeHeap
mark_all h [] = h
mark_all h (n ∷ ns) = mark_all (mark_contacted h n) ns

-- The peers that a round asks.
unfoldable pub round_peers : SpiderCrawl → List Node.Node
unfolding same_ids
round_peers c =
    let count =
      if same_ids (get_ids c.nearest) c.last_ids_crawled then len c.nearest else c.alpha in
    take count (get_uncontacted c.nearest)

abbrev pub Answers : Type 0
Answers = List (Bytes × RawResponse)

unfoldable pub find_round : (Node.Node → RawResponse) → SpiderCrawl → SpiderCrawl × Answers
unfolding mark_all round_peers
find_round respond c = (
  record c { last_ids_crawled = get_ids c.nearest; nearest = mark_all c.nearest (round_peers c) },
  map (λ peer. (peer.id, respond peer)) (round_peers c),
)

-- The loop over the answers in `NodeSpiderCrawl::find`: the heap, and the peers to remove.
unfoldable pub node_answers : NodeHeap → Answers → NodeHeap × List Bytes
node_answers h [] = (h, [])
node_answers h ((peer_id, raw) ∷ rest) =
    let fed = node_answers (push h (get_node_list raw)) rest in
    let kept = node_answers h rest in if raw.happened then fed else (kept.0, peer_id ∷ kept.1)

module _ (respond : Node.Node → RawResponse) (order : Answers → Answers) where
  unfoldable pub node_round : SpiderCrawl → SpiderCrawl
  unfolding find_round node_answers
  node_round c =
      let asked = find_round respond c in
      let read = node_answers asked.0.nearest (order asked.1) in
      record asked.0 { nearest = remove read.0 read.1 }

  unfoldable pub node_find : ℕ → SpiderCrawl → Option (List Node.Node)
  node_find zero c = none
  node_find (suc fuel) c =
      let c' = node_round c in
      let rest = node_find fuel c' in
      if have_contacted_all c'.nearest then some (to_vec c'.nearest) else rest

-- What `ValueSpiderCrawl::find` keeps while it reads the answers of a round.
pub record ValueRead : Type 0 where
  pub heap : NodeHeap
  pub without_value : NodeHeap
  pub to_remove : List Bytes
  pub found_values : List Bytes

unfoldable pub push_found : NodeHeap → Option Node.Node → NodeHeap
push_found h none = h
push_found h (some peer) = push_one h peer

-- One answer.
unfoldable pub read_value : ValueRead → Bytes → RawResponse → ValueRead
unfolding push_found
read_value r peer_id raw =
    if not raw.happened
    then record r { to_remove = r.to_remove ++ peer_id ∷ [] }
    else elim (get_value raw) [
      | some v ↦ record r { found_values = r.found_values ++ v ∷ [] }
      | none ↦ record r {
        without_value = push_found r.without_value (get_node r.heap peer_id);
        heap = push r.heap (get_node_list raw);
      }
    ]

unfoldable pub value_answers : ValueRead → Answers → ValueRead
value_answers r [] = r
value_answers r ((peer_id, raw) ∷ rest) = value_answers (read_value r peer_id raw) rest

-- `*counts.entry(v).or_insert(0) += 1`, value after value.
unfoldable pub tally : List (Bytes × ℕ) → List Bytes → List (Bytes × ℕ)
tally counts [] = counts
tally counts (v ∷ vs) =
    tally (Assoc.put bytes_eq v (Option.get_or (Assoc.find bytes_eq v counts) 0 + 1) counts) vs

-- `max_by_key`: of the greatest counts the last.
unfoldable pub max_by_count : List (Bytes × ℕ) → Option (Bytes × ℕ)
max_by_count [] = none
max_by_count (e ∷ es) = elim (max_by_count es) [
  | none ↦ some e
  | some best ↦ if leb e.1 best.1 then some best else some e
]

pub record ValueSpiderCrawl : Type 0 where
  pub base : SpiderCrawl
  pub nearest_without_value : NodeHeap

unfoldable pub new_value : Node.Node → List Node.Node → ℕ → ℕ → ValueSpiderCrawl
unfolding new
new_value node peers ksize alpha = record {
  base = new node peers ksize alpha;
  nearest_without_value = NodeHeap.new node 1;
}

-- How a value lookup ends: with the value of the most answers and the peer that the code stores it on
-- then, or with the nodes.
pub data ValueResult : Type 0 where
  hit : Option Bytes → Option Node.Node → ValueResult
  miss : List Node.Node → ValueResult

module _ (respond : Node.Node → RawResponse) (order : Answers → Answers)
    (order_counts : List (Bytes × ℕ) → List (Bytes × ℕ)) where
  unfoldable pub value_read : ValueSpiderCrawl → ValueRead
  unfolding find_round value_answers
  value_read c =
      let asked = find_round respond c.base in
      value_answers
        (record {
          heap = asked.0.nearest;
          without_value = c.nearest_without_value;
          to_remove = [];
          found_values = [];
        })
        (order asked.1)

  -- The crawl after a round, given what was read.
  unfoldable pub after_read : ValueSpiderCrawl → ValueRead → ValueSpiderCrawl
  after_read c r = record {
    base = record (find_round respond c.base).0 { nearest = remove r.heap r.to_remove };
    nearest_without_value = r.without_value;
  }

  unfoldable pub majority : List Bytes → Option Bytes
  unfolding tally max_by_count
  majority found_values =
      Option.map (λ e. e.0) (max_by_count (order_counts (tally [] found_values)))

  unfoldable pub value_find : ℕ → ValueSpiderCrawl → Option ValueResult
  unfolding value_read after_read
  value_find zero c = none
  value_find (suc fuel) c =
      let r = value_read c in
      let c' = after_read c r in
      let rest = value_find fuel c' in
      elim r.found_values [
        | v ∷ vs ↦ some (hit (majority (v ∷ vs)) (popleft r.without_value).1)
        | [] ↦
            if have_contacted_all c'.base.nearest
            then some (miss (to_vec c'.base.nearest))
            else rest
      ]
