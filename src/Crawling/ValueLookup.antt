-- ===== src/Crawling/ValueLookup.antt =====
-- `ValueSpiderCrawl::find` ends, and what it answers.
use mathlib.Core.List.{Perm}
use auth_kademlia.Prelude.{
  ℕ, zero, suc, ◌<◌, ◌≡◌, refl, sym, ap, subst, ◌∙◌, inl, inr, Bool, true, List, [], ◌∷◌, length,
  All, arith,
}
use auth_kademlia.Prelude.Bytes.{Bytes}
use auth_kademlia.Prelude.Members.{All-perm}
use auth_kademlia.Node.{Node}
use auth_kademlia.NodeHeap
use auth_kademlia.NodeHeap.{
  NodeHeap, HeapEntry, find_entry, push_one, is_contacted, push, remove, get_node, get_uncontacted,
  iter, have_contacted_all, to_vec, popleft,
}
use auth_kademlia.Crawling.{
  RawResponse, Answers, round_peers, find_round, ValueRead, ValueSpiderCrawl, value_read,
  after_read, value_find, new_value, new, majority,
}
use auth_kademlia.Crawling.Contacts.{
  IsFramed, IsFramed-trans, push-IsFramed, remove-IsFramed, IsPeer, AllNodes, iter-All, left_of,
  left_of-le, mark_all-IsMarked, have_contacted_all-cases,
}
use auth_kademlia.Crawling.Rounds.{IsCrawl, asked, asked-IsCrawl, asked-le, asked-lt, new-IsCrawl}
use auth_kademlia.Crawling.NodeLookup.{IsNetwork, ordered-Names, remove-IsCrawl}
use auth_kademlia.Crawling.Majority.{Counts, IsMajority, majority-IsMajority}
use auth_kademlia.Crawling.ValueRounds.{
  value_answers-IsRead, value_answers-values, value_answers-Passes, queried-Passes, popleft-OfSome,
  found_cases, Passes, ValueHit, Ends, Reaches, here, further, round_values,
}

module _ (us : List Bytes) (respond : Node → RawResponse) (order : Answers → Answers)
    (order_counts : Counts → Counts) (net : IsNetwork us respond order)
    (ordered_counts : (es : Counts) → Perm es (order_counts es)) (p : Bytes → Bool)
    (good : (n : Node) → Passes p (respond n)) where
  module _ (c : ValueSpiderCrawl) (v : IsCrawl us c.base.nearest)
      (w : AllNodes (IsPeer us) c.nearest_without_value) where
    abbrev read : ValueRead
    read = value_read respond order order_counts c

    abbrev next : ValueSpiderCrawl
    next = after_read respond order order_counts c read

    read-IsRead :
        IsCrawl us read.heap
        × IsFramed (asked us respond c.base) read.heap
        × AllNodes (IsPeer us) read.without_value
    unfolding value_read
    read-IsRead =
        let r =
          value_answers-IsRead us _ _ (ordered-Names us respond order net c.base)
            (asked-IsCrawl us respond c.base v) w in
        (r.crawl, r.framed, r.aside)

    read-values : read.found_values ≡ round_values respond order order_counts c
    unfolding value_read find_round
    read-values =
        value_answers-values
          (record {
            heap = (find_round respond c.base).0.nearest;
            without_value = c.nearest_without_value;
            to_remove = [];
            found_values = [];
          })
          (order (find_round respond c.base).1)

    read-Passes : All (λ x. p x ≡ true) (round_values respond order order_counts c)
    unfolding value_read find_round
    read-Passes = subst (All (λ x. p x ≡ true)) read-values (
        value_answers-Passes p _ _
          (All-perm _ (λ r. hlevel) (net.ordered _)
            (queried-Passes p respond good (round_peers c.base)))
          tt)

    next-IsCrawl : IsCrawl us next.base.nearest
    unfolding after_read
    next-IsCrawl = remove-IsCrawl us read.heap read.to_remove read-IsRead.0

    next-aside : AllNodes (IsPeer us) next.nearest_without_value
    unfolding after_read
    next-aside = read-IsRead.2

    next-IsFramed : IsFramed (asked us respond c.base) next.base.nearest
    unfolding after_read
    next-IsFramed = IsFramed-trans read-IsRead.1 (remove-IsFramed read.heap read.to_remove)

    next-frame : (next.base.nearest.node ≡ c.base.nearest.node) × (next.base.alpha ≡ c.base.alpha)
    unfolding after_read find_round
    next-frame =
        (next-IsFramed.pivot ∙ (mark_all-IsMarked c.base.nearest (round_peers c.base)).pivot, refl)

    -- A round that read values ends the lookup.
    stops_with_value :
        (start : ValueSpiderCrawl) (fuel : ℕ) (x : Bytes) (xs : List Bytes)
        → Reaches respond order order_counts start c
        → read.found_values ≡ x ∷ xs
        → ValueHit respond order order_counts us p start
            (value_find respond order order_counts (suc fuel) c)
    unfolding value_find
    stops_with_value start fuel x xs way e =
        let m = majority-IsMajority respond order order_counts ordered_counts x xs in
        let same : x ∷ xs ≡ round_values respond order order_counts c = sym e ∙ read-values in
        record {
          round = c;
          reached = way;
          found = majority respond order order_counts (x ∷ xs);
          cached_on = (popleft read.without_value).1;
          result = rw (e, value_find) refl;
          majority_ok =
              subst (λ l. IsMajority l (majority respond order order_counts (x ∷ xs))) same m;
          passes = read-Passes;
          cached_known = popleft-OfSome us read.without_value read-IsRead.2;
        }

  within_rounds :
      (h : NodeHeap) (start : ValueSpiderCrawl) (fuel : ℕ) (c : ValueSpiderCrawl)
      (v : IsCrawl us c.base.nearest) (w : AllNodes (IsPeer us) c.nearest_without_value)
      → 0 < c.base.alpha
      → c.base.nearest.node ≡ h.node
      → Reaches respond order order_counts start c
      → left_of us (next c v w).base.nearest.contacted < fuel
      → Ends respond order order_counts us p h start (value_find respond order order_counts fuel c)
  unfolding value_find
  within_rounds h start zero c v w active pivoted way less = absurd (omega arith)
  within_rounds h start (suc fuel) c v w active pivoted way less =
      elim (found_cases (read c v w).found_values) [
        | inr (x, xs, e) ↦ inl (stops_with_value c v w start fuel x xs way e)
        | inl e ↦
            let d = next c v w in
            let ok = next-IsCrawl c v w in
            let aside = next-aside c v w in
            let (pivot, same) = next-frame c v w in
            let on = further c way (sym (read-values c v w) ∙ e) in
            elim (have_contacted_all-cases d.base.nearest) [
              | inl (all, contacted) ↦ inr (record {
                ended = d;
                reached = on;
                result = rw (e, all, value_find) refl;
                lasts = record {
                  heap_ok = ok.heap_ok;
                  pivot = pivot ∙ pivoted;
                  contacted = unfold to_vec in contacted;
                  peers = unfold to_vec in (iter-All (IsPeer us) d.base.nearest ok.known);
                };
              })
              | inr (more, (n, ns, first)) ↦
                  let fewer = asked-lt us respond d.base n ns ok (omega arith) first in
                  let rest =
                    within_rounds h start fuel d ok aside (omega arith) (pivot ∙ pivoted) on
                      (omega (arith, ap (left_of us) (next-IsFramed d ok aside).contacts)) in
                  let goes_on : value_find respond order order_counts (suc fuel) c
                      ≡ value_find respond order order_counts fuel d =
                    rw (e, more, value_find) refl in
                  subst (Ends respond order order_counts us p h start) (sym goes_on) rest
            ]
      ]

  -- In a network with `us` as the identifiers of all nodes that peers name, where every value that
  -- a peer answers passes the test `p`, `us` and one more rounds are enough for a lookup with an
  -- `alpha` above 0 that starts from known peers. It ends with the most frequent value of those
  -- that the peers of a round answer, the first round in which one does, and with a known peer to
  -- store it on, if any; or, after rounds without a value, with known peers that were all
  -- contacted.
  pub value_find-Ends :
      (node : Node) (peers : List Node) (ksize alpha fuel : ℕ)
      → 0 < alpha
      → All (IsPeer us) peers
      → length us < fuel
      → let c = new_value node peers ksize alpha in
        Ends respond order order_counts us p
          (NodeHeap.new node ksize)
          c
          (value_find respond order order_counts fuel c)
  unfolding new_value new NodeHeap.new
  value_find-Ends node peers ksize alpha fuel active known enough =
      let c = new_value node peers ksize alpha in
      let v = new-IsCrawl us node peers ksize known in
      let framed = push-IsFramed (NodeHeap.new node ksize) peers in
      within_rounds (NodeHeap.new node ksize) c fuel c v tt active framed.pivot here (
        omega (
          arith,
          ap (left_of us) (next-IsFramed c v tt).contacts,
          asked-le us respond c.base,
          ap (left_of us) framed.contacts,
          left_of-le us (NodeHeap.new node ksize).contacted,
        ))
