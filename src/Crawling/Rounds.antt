-- ===== src/Crawling/Rounds.antt =====
-- A round of a lookup: what it asks, and how far it gets.
use auth_kademlia.Prelude.{
  ℕ, zero, suc, ◌≤◌, ◌<◌, ◌≡◌, refl, sym, ap, subst, true, not, List, [], ◌∷◌, length, take, All,
  arith, if◌then◌else◌, length-map, length-take, length-retain-le,
}
use auth_kademlia.Prelude.Bytes.{Bytes}
use auth_kademlia.Prelude.Sort.{sort_by_key, length-sort_by_key}
use auth_kademlia.Node.{Node}
use auth_kademlia.NodeHeap
use auth_kademlia.NodeHeap.{
  NodeHeap, mark_contacted, is_contacted, push, remove, get_ids, len, get_uncontacted, iter,
  have_contacted_all, to_vec,
}
use auth_kademlia.NodeHeap.Invariant.{IsHeap, new-IsHeap, push-IsHeap, mark_contacted-IsHeap}
use auth_kademlia.Crawling.{RawResponse, SpiderCrawl, same_ids, mark_all, round_peers, find_round}
use auth_kademlia.Crawling.Contacts.{
  IsPeer, left_of, AllNodes, push-AllNodes, mark_all-le, mark_all-lt, mark_all-IsMarked,
  get_uncontacted-fresh, get_uncontacted-All,
}

iter-le-len : (h : NodeHeap) → length (iter h) ≤ len h
unfolding iter len
iter-le-len h = omega (
  arith,
  length-map (λ e. e.node) (take h.maxsize (sort_by_key (λ e. e.distance) h.heap)),
  length-take h.maxsize (sort_by_key (λ e. e.distance) h.heap),
  length-sort_by_key (λ e. e.distance) h.heap,
)

uncontacted-le-len : (h : NodeHeap) → length (get_uncontacted h) ≤ len h
unfolding get_uncontacted
uncontacted-le-len h =
    omega (arith, iter-le-len h, length-retain-le {0} (λ n. not (is_contacted h n)) (iter h))

take-first {ℓ} :
    {A : Type ℓ} (k : ℕ) (xs : List A) (x : A) (ys : List A)
    → 0 < k
    → xs ≡ x ∷ ys
    → (rest : List A) × (take k xs ≡ x ∷ rest)
take-first zero xs x ys h e = absurd (omega arith)
take-first (suc k) xs x ys h e = (take k ys, rw e refl)

-- A crawl with an `alpha` above 0 that has a node to contact asks its nearest one first.
pub round_peers-first :
    (c : SpiderCrawl) (n : Node) (ns : List Node)
    → 0 < c.alpha
    → get_uncontacted c.nearest ≡ n ∷ ns
    → (rest : List Node) × (round_peers c ≡ n ∷ rest)
unfolding round_peers
round_peers-first c n ns active e =
    take-first (if same_ids (get_ids c.nearest) c.last_ids_crawled then len c.nearest else c.alpha)
      (get_uncontacted c.nearest) n ns (ground (arith, uncontacted-le-len c.nearest, ap length e)) e

pub mark_all-IsHeap : (h : NodeHeap) (ns : List Node) → IsHeap h → IsHeap (mark_all h ns)
unfolding mark_all
mark_all-IsHeap h [] v = v
mark_all-IsHeap h (n ∷ ns) v = mark_all-IsHeap (mark_contacted h n) ns (mark_contacted-IsHeap h n v)

-- A crawl whose heap is in order and holds only nodes of the known identifiers `us`.
pub record IsCrawl (us : List Bytes) (h : NodeHeap) : Type 0 where
  pub heap_ok : IsHeap h
  pub known : AllNodes (IsPeer us) h

pub new-IsCrawl :
    (us : List Bytes) (node : Node) (peers : List Node) (ksize : ℕ)
    → All (IsPeer us) peers
    → IsCrawl us (push (NodeHeap.new node ksize) peers)
unfolding NodeHeap.new
new-IsCrawl us node peers ksize known = record {
  heap_ok = push-IsHeap (NodeHeap.new node ksize) peers (new-IsHeap node ksize);
  known = push-AllNodes (IsPeer us) (NodeHeap.new node ksize) peers known tt;
}

module _ (us : List Bytes) (respond : Node → RawResponse) (c : SpiderCrawl) where
  -- The heap once the round has marked its peers.
  abbrev pub asked : NodeHeap
  asked = (find_round respond c).0.nearest

  pub asked-IsCrawl : IsCrawl us c.nearest → IsCrawl us asked
  unfolding find_round
  asked-IsCrawl v = record {
    heap_ok = mark_all-IsHeap c.nearest (round_peers c) v.heap_ok;
    known =
        subst (All (λ e. IsPeer us e.node))
          (sym (mark_all-IsMarked c.nearest (round_peers c)).entries) v.known;
  }

  pub asked-le : left_of us asked.contacted ≤ left_of us c.nearest.contacted
  unfolding find_round
  asked-le = mark_all-le us c.nearest (round_peers c)

  -- A round of a crawl with a node to contact gets further.
  pub asked-lt :
      (n : Node) (ns : List Node)
      → IsCrawl us c.nearest
      → 0 < c.alpha
      → get_uncontacted c.nearest ≡ n ∷ ns
      → left_of us asked.contacted < left_of us c.nearest.contacted
  unfolding find_round
  asked-lt n ns v active e =
      let (rest, peers) = round_peers-first c n ns active e in
      let fresh = get_uncontacted-fresh c.nearest in
      let known = get_uncontacted-All (IsPeer us) c.nearest v.known in
      rw peers (
        mark_all-lt us c.nearest n rest (subst (All (IsPeer us)) e known).0.0
          (ground (arith, (subst (All (λ m. not (is_contacted c.nearest m) ≡ true)) e fresh).0)))

-- What is read from the answers of one round keeps the crawl in order.
pub All-IsProp {ℓ κ} :
    {A : Type ℓ} (P : A → Type κ) → ((x : A) → IsProp (P x)) → (xs : List A) → IsProp (All P xs)
All-IsProp P p [] = hlevel
All-IsProp P p (x ∷ xs) = λ a b i. (p x a.0 b.0 i, All-IsProp P p xs a.1 b.1 i)
