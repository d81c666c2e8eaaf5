-- ===== src/Crawling/NodeLookup.antt =====
-- `NodeSpiderCrawl::find` ends, and what it answers.
use mathlib.Core.List.{Perm}
use auth_kademlia.Prelude.{
  ℕ, zero, suc, ◌<◌, ◌≡◌, refl, ap, ◌∙◌, inl, inr, true, Option, some, List, [], ◌∷◌, map, length,
  All, arith, Bool-cases,
}
use auth_kademlia.Prelude.Bytes.{Bytes}
use auth_kademlia.Prelude.Members.{All-perm}
use auth_kademlia.Node.{Node}
use auth_kademlia.NodeHeap
use auth_kademlia.NodeHeap.{
  NodeHeap, is_contacted, push, remove, get_uncontacted, iter, have_contacted_all, to_vec,
}
use auth_kademlia.NodeHeap.Invariant.{IsHeap, push-IsHeap, remove-IsHeap}
use auth_kademlia.Crawling.{
  RawResponse, get_node_list, SpiderCrawl, Answers, round_peers, find_round, node_answers,
  node_round, node_find, new,
}
use auth_kademlia.Crawling.Contacts.{
  IsFramed, IsFramed-trans, IsFramed-refl, push-IsFramed, remove-IsFramed, IsPeer, IsPeer-IsProp,
  iter-All, left_of, left_of-le, push-AllNodes, remove-AllNodes, mark_all-IsMarked,
  have_contacted_all-cases,
}
use auth_kademlia.Crawling.Rounds.{
  IsCrawl, asked, asked-IsCrawl, asked-le, asked-lt, new-IsCrawl, All-IsProp,
}

-- The network of a lookup: every node that a peer names is known, and the answers of a round are read
-- in some order.
pub record IsNetwork (us : List Bytes) (respond : Node → RawResponse) (order : Answers → Answers)
    : Type 0 where
  pub named : (n : Node) → All (IsPeer us) (get_node_list (respond n))
  pub ordered : (rs : Answers) → Perm rs (order rs)

abbrev pub Names : List Bytes → Answers → Type 0
Names us rs = All (λ (r : Bytes × RawResponse). All (IsPeer us) (get_node_list r.1)) rs

module _ (us : List Bytes) (respond : Node → RawResponse) (order : Answers → Answers)
    (net : IsNetwork us respond order) where
  queried-Names : (ps : List Node) → Names us (map (λ peer. (peer.id, respond peer)) ps)
  queried-Names [] = tt
  queried-Names (p ∷ ps) = (net.named p, queried-Names ps)

  pub ordered-Names : (c : SpiderCrawl) → Names us (order (find_round respond c).1)
  unfolding find_round
  ordered-Names c =
      All-perm _ (λ r. All-IsProp _ (IsPeer-IsProp us) (get_node_list r.1)) (net.ordered _)
        (queried-Names (round_peers c))

-- The answers keep the crawl in order, and the frame of its heap.
node_answers-IsCrawl :
    (us : List Bytes) (h : NodeHeap) (rs : Answers)
    → Names us rs
    → IsCrawl us h
    → IsCrawl us (node_answers h rs).0 × IsFramed h (node_answers h rs).0
unfolding node_answers get_node_list
node_answers-IsCrawl us h [] ns v = (v, IsFramed-refl h)
node_answers-IsCrawl us h ((peer_id, raw) ∷ rest) ns v = elim (Bool-cases raw.happened) [
  | inl happened ↦
      let fed : IsCrawl us (push h (get_node_list raw)) = record {
        heap_ok = push-IsHeap h (get_node_list raw) v.heap_ok;
        known = push-AllNodes (IsPeer us) h (get_node_list raw) ns.0 v.known;
      } in
      let (ok, framed) = node_answers-IsCrawl us (push h (get_node_list raw)) rest ns.1 fed in
      rw (happened, node_answers) (ok, IsFramed-trans (push-IsFramed h (get_node_list raw)) framed)
  | inr silent ↦ rw (silent, node_answers) (node_answers-IsCrawl us h rest ns.1 v)
]

pub remove-IsCrawl :
    (us : List Bytes) (h : NodeHeap) (ids : List Bytes) → IsCrawl us h → IsCrawl us (remove h ids)
remove-IsCrawl us h ids v = record {
  heap_ok = remove-IsHeap h ids v.heap_ok;
  known = remove-AllNodes (IsPeer us) h ids v.known;
}

-- How a lookup of nodes ends: with the listing of a heap in order, for the same pivot and size, all
-- of whose listed nodes were contacted.
pub record FindsNodes (us : List Bytes) (h : NodeHeap) (o : Option (List Node)) : Type 0 where
  pub last : NodeHeap
  pub result : o ≡ some (to_vec last)
  pub heap_ok : IsHeap last
  pub pivot : last.node ≡ h.node
  pub size : last.maxsize ≡ h.maxsize
  pub contacted : All (λ n. is_contacted last n ≡ true) (to_vec last)
  pub peers : All (IsPeer us) (to_vec last)

module _ (us : List Bytes) (respond : Node → RawResponse) (order : Answers → Answers)
    (net : IsNetwork us respond order) where
  module _ (c : SpiderCrawl) (v : IsCrawl us c.nearest) where
    abbrev next : SpiderCrawl
    next = node_round respond order c

    abbrev read : NodeHeap × List Bytes
    read = node_answers (asked us respond c) (order (find_round respond c).1)

    read-IsCrawl : IsCrawl us read.0 × IsFramed (asked us respond c) read.0
    read-IsCrawl =
        node_answers-IsCrawl us (asked us respond c) _ (ordered-Names us respond order net c)
          (asked-IsCrawl us respond c v)

    next-IsCrawl : IsCrawl us next.nearest
    unfolding node_round
    next-IsCrawl = remove-IsCrawl us read.0 read.1 read-IsCrawl.0

    next-IsFramed : IsFramed (asked us respond c) next.nearest
    unfolding node_round
    next-IsFramed = IsFramed-trans read-IsCrawl.1 (remove-IsFramed read.0 read.1)

    next-frame :
        (next.nearest.node ≡ c.nearest.node)
        × (next.nearest.maxsize ≡ c.nearest.maxsize)
        × (next.alpha ≡ c.alpha)
    unfolding node_round find_round
    next-frame =
        let f = next-IsFramed in
        let m = mark_all-IsMarked c.nearest (round_peers c) in
        (f.pivot ∙ m.pivot, f.size ∙ m.size, refl)

  -- With more fuel than known identifiers that are left to contact, the lookup ends.
  finds_within :
      (fuel : ℕ) (c : SpiderCrawl)
      → IsCrawl us c.nearest
      → 0 < c.alpha
      → left_of us (node_round respond order c).nearest.contacted < fuel
      → FindsNodes us c.nearest (node_find respond order fuel c)
  unfolding node_find
  finds_within zero c v active h = absurd (omega arith)
  finds_within (suc fuel) c v active h =
      let d = node_round respond order c in
      let ok = next-IsCrawl c v in
      let (pivot, size, same) = next-frame c v in
      elim (have_contacted_all-cases d.nearest) [
        | inl (all, contacted) ↦
            rw (all, node_find)
              (record {
                last = d.nearest;
                result = refl;
                heap_ok = ok.heap_ok;
                pivot = pivot;
                size = size;
                contacted = unfold to_vec in contacted;
                peers = unfold to_vec in (iter-All (IsPeer us) d.nearest ok.known);
              })
        | inr (more, (n, ns, e)) ↦
            let further = asked-lt us respond d n ns ok (omega arith) e in
            let frame = next-IsFramed d ok in
            let rest =
              finds_within fuel d ok (omega arith)
                (omega (arith, ap (left_of us) frame.contacts)) in
            rw (more, node_find)
              (record {
                last = rest.last;
                result = rest.result;
                heap_ok = rest.heap_ok;
                pivot = rest.pivot ∙ pivot;
                size = rest.size ∙ size;
                contacted = rest.contacted;
                peers = rest.peers;
              })
      ]

  -- In a network with `us` as the identifiers of all nodes that peers name, `us` and one more rounds
  -- are enough for a lookup with an `alpha` above 0 that starts from known peers.
  pub node_find-FindsNodes :
      (node : Node) (peers : List Node) (ksize alpha fuel : ℕ)
      → 0 < alpha
      → All (IsPeer us) peers
      → length us < fuel
      → FindsNodes us
          (NodeHeap.new node ksize)
          (node_find respond order fuel (new node peers ksize alpha))
  unfolding new
  node_find-FindsNodes node peers ksize alpha fuel active known enough =
      let c = new node peers ksize alpha in
      let v = new-IsCrawl us node peers ksize known in
      let framed = push-IsFramed (NodeHeap.new node ksize) peers in
      let r = finds_within fuel c v active (
        omega (
          arith,
          ap (left_of us) (next-IsFramed c v).contacts,
          asked-le us respond c,
          ap (left_of us) framed.contacts,
          left_of-le us (NodeHeap.new node ksize).contacted,
        )) in
      record {
        last = r.last;
        result = r.result;
        heap_ok = r.heap_ok;
        pivot = r.pivot ∙ framed.pivot;
        size = r.size ∙ framed.size;
        contacted = r.contacted;
        peers = r.peers;
      }
