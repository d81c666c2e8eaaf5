-- ===== src/Crawling/ValueRounds.antt =====
-- What a round of `ValueSpiderCrawl::find` reads, and how the lookup may end.
use mathlib.Core.List.{append_assoc, append-nil}
use mathlib.Core.Option
use auth_kademlia.Prelude.{
  ◌≡◌, refl, sym, ◌∙◌, ◌⊎◌, inl, inr, Bool, true, Option, some, List, [], ◌∷◌, ◌++◌, map, All,
  Bool-cases, Option-cases, All-append, none, some, if◌then◌else◌, ◌++◌,
}
use auth_kademlia.Prelude.Bytes.{Bytes}
use auth_kademlia.Prelude.Members.{All-perm}
use auth_kademlia.Node.{Node, same_id}
use auth_kademlia.NodeHeap.{
  NodeHeap, HeapEntry, find_entry, push_one, is_contacted, push, get_node, to_vec, popleft,
}
use auth_kademlia.NodeHeap.Order.{popleft_closest}
use auth_kademlia.NodeHeap.Invariant.{IsHeap, push-IsHeap}
use auth_kademlia.Crawling.{
  RawResponse, push_found, get_value, get_node_list, Answers, round_peers, ValueRead, read_value,
  value_answers, ValueSpiderCrawl, ValueResult, hit, miss, value_read, after_read,
}
use auth_kademlia.Crawling.Contacts.{
  IsFramed, IsFramed-trans, IsFramed-refl, push-IsFramed, IsPeer, IsPeer-IsProp, AllNodes,
  push-AllNodes,
}
use auth_kademlia.Crawling.Rounds.{IsCrawl}
use auth_kademlia.Crawling.NodeLookup.{Names}
use auth_kademlia.Crawling.Majority.{Counts, IsMajority}

-- What reading an answer keeps.
pub record IsRead (us : List Bytes) (a b : ValueRead) : Type 0 where
  pub crawl : IsCrawl us b.heap
  pub aside : AllNodes (IsPeer us) b.without_value
  pub framed : IsFramed a.heap b.heap

-- What holds of a node, if there is one.
abbrev pub OfSome : (Node → Type 0) → Option Node → Type 0
OfSome P none = Unit
OfSome P (some n) = P n

find_entry-OfSome :
    (P : Node → Type 0) (id : Bytes) (es : List HeapEntry)
    → All (λ e. P e.node) es
    → OfSome P (Option.map (λ e. e.node) (find_entry id es))
unfolding find_entry
find_entry-OfSome P id [] v = tt
find_entry-OfSome P id (e ∷ es) v = elim (Bool-cases (same_id e.node.id id)) [
  | inl here ↦ rw (here, find_entry) v.0
  | inr later ↦ rw (later, find_entry) (find_entry-OfSome P id es v.1)
]

push_found-AllNodes :
    (P : Node → Type 0) (h : NodeHeap) (o : Option Node)
    → OfSome P o
    → AllNodes P h
    → AllNodes P (push_found h o)
unfolding push_found push_one
push_found-AllNodes P h none q v = v
push_found-AllNodes P h (some n) q v = push-AllNodes P h (n ∷ []) (q, tt) v

pub popleft-OfSome :
    (us : List Bytes) (h : NodeHeap) → AllNodes (IsPeer us) h → OfSome (IsPeer us) (popleft h).1
popleft-OfSome us h v = elim (popleft_closest h) [
  | inl (_, same) ↦ rw same tt
  | inr (m, split, named, _) ↦ rw named (All-perm _ (λ e. IsPeer-IsProp us e.node) split v).0
]

push_named :
    (us : List Bytes) (h : NodeHeap) (raw : RawResponse)
    → All (IsPeer us) (get_node_list raw)
    → IsCrawl us h
    → IsCrawl us (push h (get_node_list raw))
push_named us h raw ns v = record {
  heap_ok = push-IsHeap h (get_node_list raw) v.heap_ok;
  known = push-AllNodes (IsPeer us) h (get_node_list raw) ns v.known;
}

module _ (us : List Bytes) where
  read_value-IsRead :
      (r : ValueRead) (peer_id : Bytes) (raw : RawResponse)
      → All (IsPeer us) (get_node_list raw)
      → IsCrawl us r.heap
      → AllNodes (IsPeer us) r.without_value
      → IsRead us r (read_value r peer_id raw)
  unfolding read_value get_value get_node
  read_value-IsRead r peer_id raw ns v w = elim (Bool-cases raw.happened) [
    | inr silent ↦ rw silent (record { crawl = v; aside = w; framed = IsFramed-refl r.heap })
    | inl happened ↦ elim (Option-cases (get_value raw)) [
      | inr (value, e) ↦
          rw (happened, e) (record { crawl = v; aside = w; framed = IsFramed-refl r.heap })
      | inl e ↦
          rw (happened, e)
            (record {
              aside =
                  push_found-AllNodes (IsPeer us) r.without_value _
                    (find_entry-OfSome (IsPeer us) peer_id r.heap.heap v.known) w;
              crawl = push_named us r.heap raw ns v;
              framed = push-IsFramed r.heap (get_node_list raw);
            })
    ]
  ]

  pub value_answers-IsRead :
      (r : ValueRead) (rs : Answers)
      → Names us rs
      → IsCrawl us r.heap
      → AllNodes (IsPeer us) r.without_value
      → IsRead us r (value_answers r rs)
  unfolding value_answers
  value_answers-IsRead r [] ns v w = record { crawl = v; aside = w; framed = IsFramed-refl r.heap }
  value_answers-IsRead r ((peer_id, raw) ∷ rest) ns v w =
      let one = read_value-IsRead r peer_id raw ns.0 v w in
      let more = value_answers-IsRead (read_value r peer_id raw) rest ns.1 one.crawl one.aside in
      record {
        crawl = more.crawl;
        aside = more.aside;
        framed = IsFramed-trans one.framed more.framed;
      }

-- The values among some answers.
unfoldable pub values_in : Answers → List Bytes
values_in [] = []
values_in ((peer_id, raw) ∷ rest) =
    let others = values_in rest in
    if raw.happened then elim (get_value raw) [ some v ↦ v ∷ others | none ↦ others ] else others

read_value-values :
    (r : ValueRead) (peer_id : Bytes) (raw : RawResponse) (rest : Answers)
    → (read_value r peer_id raw).found_values ++ values_in rest
      ≡ r.found_values ++ values_in ((peer_id, raw) ∷ rest)
unfolding read_value values_in get_value
read_value-values r peer_id raw rest = elim (Bool-cases raw.happened) [
  | inr silent ↦ rw silent refl
  | inl happened ↦ elim (Option-cases (get_value raw)) [
    | inr (value, e) ↦ rw (happened, e) (append_assoc r.found_values (value ∷ []) (values_in rest))
    | inl e ↦ rw (happened, e) refl
  ]
]

pub value_answers-values :
    (r : ValueRead) (rs : Answers)
    → (value_answers r rs).found_values ≡ r.found_values ++ values_in rs
unfolding value_answers values_in
value_answers-values r [] = sym (append-nil r.found_values)
value_answers-values r ((peer_id, raw) ∷ rest) =
    value_answers-values (read_value r peer_id raw) rest ∙ read_value-values r peer_id raw rest

-- A test that every value answered passes.
module _ (p : Bytes → Bool) where
  abbrev pub Passes : RawResponse → Type 0
  Passes raw = (v : Bytes) → get_value raw ≡ some v → p v ≡ true

  read_value-Passes :
      (r : ValueRead) (peer_id : Bytes) (raw : RawResponse)
      → Passes raw
      → All (λ v. p v ≡ true) r.found_values
      → All (λ v. p v ≡ true) (read_value r peer_id raw).found_values
  unfolding read_value get_value
  read_value-Passes r peer_id raw good v = elim (Bool-cases raw.happened) [
    | inr silent ↦ rw silent v
    | inl happened ↦ elim (Option-cases (get_value raw)) [
      | inr (value, e) ↦
          rw (happened, e) (All-append _ r.found_values (value ∷ []) v (good value e, tt))
      | inl e ↦ rw (happened, e) v
    ]
  ]

  pub value_answers-Passes :
      (r : ValueRead) (rs : Answers)
      → All (λ (a : Bytes × RawResponse). Passes a.1) rs
      → All (λ v. p v ≡ true) r.found_values
      → All (λ v. p v ≡ true) (value_answers r rs).found_values
  unfolding value_answers
  value_answers-Passes r [] good v = v
  value_answers-Passes r ((peer_id, raw) ∷ rest) good v =
      value_answers-Passes (read_value r peer_id raw) rest good.1
        (read_value-Passes r peer_id raw good.0 v)

  module _ (respond : Node → RawResponse) (good : (n : Node) → Passes (respond n)) where
    pub queried-Passes :
        (ps : List Node)
        → All (λ (a : Bytes × RawResponse). Passes a.1) (map (λ peer. (peer.id, respond peer)) ps)
    queried-Passes [] = tt
    queried-Passes (n ∷ ps) = (good n, queried-Passes ps)

pub found_cases : (vs : List Bytes) → (vs ≡ []) ⊎ ((w : Bytes) × (ws : List Bytes) × (vs ≡ w ∷ ws))
found_cases [] = inl refl
found_cases (w ∷ ws) = inr (w, ws, refl)

-- A heap in order whose listed nodes are known and were all contacted.
pub record IsListed (us : List Bytes) (h last : NodeHeap) : Type 0 where
  pub heap_ok : IsHeap last
  pub pivot : last.node ≡ h.node
  pub contacted : All (λ n. is_contacted last n ≡ true) (to_vec last)
  pub peers : All (IsPeer us) (to_vec last)

module _ (respond : Node → RawResponse) (order : Answers → Answers)
    (order_counts : Counts → Counts) where
  -- The values that the peers of a round answer.
  abbrev pub round_values : ValueSpiderCrawl → List Bytes
  round_values c =
      values_in (order (map (λ (peer : Node). (peer.id, respond peer)) (round_peers c.base)))

  -- The crawls that follow from one by rounds without values.
  pub data Reaches (c : ValueSpiderCrawl) : ValueSpiderCrawl → Type 0 where
    here : Reaches c c
    further :
        (d : ValueSpiderCrawl)
        → Reaches c d
        → round_values d ≡ []
        → Reaches c
            (after_read respond order order_counts d (value_read respond order order_counts d))

  -- How a lookup of a value ends: with the most frequent one of the values of its first round that
  -- has any, each of which passes the test, and a known peer to store it on, if there is one; or
  -- after rounds without values, with the listing of a heap in order whose listed nodes were all
  -- contacted.
  pub record ValueHit (us : List Bytes) (p : Bytes → Bool) (c : ValueSpiderCrawl)
      (o : Option ValueResult) : Type 0 where
    pub round : ValueSpiderCrawl
    pub reached : Reaches c round
    pub found : Option Bytes
    pub cached_on : Option Node
    pub result : o ≡ some (hit found cached_on)
    pub majority_ok : IsMajority (round_values round) found
    pub passes : All (λ v. p v ≡ true) (round_values round)
    pub cached_known : OfSome (IsPeer us) cached_on

  pub record ValueMiss (us : List Bytes) (h : NodeHeap) (c : ValueSpiderCrawl)
      (o : Option ValueResult) : Type 0 where
    pub ended : ValueSpiderCrawl
    pub reached : Reaches c ended
    pub result : o ≡ some (miss (to_vec ended.base.nearest))
    pub lasts : IsListed us h ended.base.nearest

  abbrev pub Ends :
      List Bytes → (Bytes → Bool) → NodeHeap → ValueSpiderCrawl → Option ValueResult → Type 0
  Ends us p h c o = ValueHit us p c o ⊎ ValueMiss us h c o
