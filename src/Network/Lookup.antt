-- ===== src/Network/Lookup.antt =====
-- The searches and lookups of a server in a network of known peers: they return, with known peers.
use mathlib.Core.List.{Perm}
use auth_kademlia.Prelude.{
  ℕ, ◌^◌, ◌<◌, refl, sym, ap, subst, ◌∙◌, ◌≡◌, inl, inr, true, Option, none, some, List, [], length,
  All,
}
use auth_kademlia.Prelude.Bytes.{Bytes}
use auth_kademlia.Node.{Node, IsNodeId, from_id}
use auth_kademlia.Routing.Table.{RoutingTable, remove_contact}
use auth_kademlia.NodeHeap
use auth_kademlia.Crawling.{Answers, ValueResult, hit, miss, get_node_list}
use auth_kademlia.Crawling.Contacts.{IsPeer}
use auth_kademlia.Crawling.NodeLookup.{IsNetwork, node_find-FindsNodes}
use auth_kademlia.Crawling.ValueRounds.{OfSome}
use auth_kademlia.Crawling.ValueLookup.{value_find-Ends}
use auth_kademlia.Protocol.{KademliaProtocol}
use auth_kademlia.Protocol.Chain.{Returns, Returns-done, Returns-and_then}
use auth_kademlia.Protocol.Message.{RpcMessage}
use auth_kademlia.Protocol.Calls.{Called}
use auth_kademlia.Protocol.Called.{Ending, unsent, answered, removed, write_calls-Ends}
use auth_kademlia.Routing.Known.{Whenever, Whenever-done}
use auth_kademlia.Network.Settled.{IsReady, AllFit, route_all-IsReady, remove_contact-IsReady}
use auth_kademlia.Protocol.Welcomed.{key_fits}
use auth_kademlia.Network.{
  Server, World, finished, store_found, settled, with_router, with_shared, value_response,
  node_response, crawl_value, crawl_nodes,
}

-- A network with `us` as the identifiers of all its nodes: digests are identifiers, peers name known
-- nodes only, the orders permute, the calls of the router during a lookup can each be made, and there
-- is fuel for a round per node.
pub record IsWorld (Cache : Type 0) (us : List Bytes) (world : World) : Type 0 where
  pub digest_id : (key : Bytes) → IsNodeId (world.digest key)
  pub ordered : (rs : Answers) → Perm rs (world.order rs)
  pub ordered_counts : (es : List (Bytes × ℕ)) → Perm es (world.order_counts es)
  pub names_value :
      (p : KademliaProtocol Cache) (target n : Node)
      → All (IsPeer us) (get_node_list (value_response world p target n))
  pub names_node :
      (p : KademliaProtocol Cache) (target n : Node)
      → All (IsPeer us) (get_node_list (node_response world p target n))
  pub fitting : (t : RoutingTable) → IsReady us t → AllFit us t (world.router_calls t)
  pub enough : length us < world.fuel

-- What a lookup leaves of a server: its router is ready, and the store and the cache are the same.
pub record After {Cache : Type 0} (us : List Bytes) (s s' : Server Cache) : Type 0 where
  pub ready : IsReady us s'.shared.router
  pub same_storage : s'.shared.storage ≡ s.shared.storage
  pub same_cache : s'.shared.sig_cache ≡ s.shared.sig_cache
  pub same_alpha : s'.alpha ≡ s.alpha

module _ {Cache : Type 0} (us : List Bytes) (world : World) (laws : IsWorld Cache us world) where
  pub digest_fits : (key : Bytes) → (from_id (world.digest key)).long_id < 2 ^ 128
  digest_fits key =
      key_fits (world.digest key) (laws.digest_id key).sized (laws.digest_id key).bytes

  settled-After :
      (s : Server Cache) → IsReady us s.shared.router → Returns (After us s) (settled world s)
  unfolding settled with_router
  settled-After s v =
      Returns-and_then _ _ _ _
        (route_all-IsReady us s.shared.router (world.router_calls s.shared.router) v
          (laws.fitting s.shared.router v))
        (λ t ready.
          Returns-done _ _
            (record { ready = ready; same_storage = refl; same_cache = refl; same_alpha = refl }))

  -- A call of a peer that the lookup chose.
  Ending-After :
      {A : Type 0} {s : Server Cache} {peer : Node} {message : RpcMessage}
      {read : Option RpcMessage → Option A} {failed : A} {r : Called Cache A}
      → IsReady us s.shared.router
      → peer.long_id < 2 ^ 128
      → Ending world.parses world.answer s.shared peer message read failed r
      → After us s (with_shared s r.0)
  unfolding with_shared
  Ending-After v fits (unsent h) = record {
    ready = v;
    same_storage = refl;
    same_cache = refl;
    same_alpha = refl;
  }
  Ending-After v fits (answered addr a h e) = record {
    ready = v;
    same_storage = refl;
    same_cache = refl;
    same_alpha = refl;
  }
  Ending-After {s = s} {peer = peer} v fits (removed addr t h e k) =
      let r = remove_contact-IsReady us s.shared.router peer v fits in
      record {
        ready =
            Whenever-done (IsReady us) (remove_contact s.shared.router peer) t k
              (subst (Whenever (IsReady us)) (sym r.result) r.holds);
        same_storage = refl;
        same_cache = refl;
        same_alpha = refl;
      }

  pub After-trans : {a b c : Server Cache} → After us a b → After us b c → After us a c
  After-trans f g = record {
    ready = g.ready;
    same_storage = g.same_storage ∙ f.same_storage;
    same_cache = g.same_cache ∙ f.same_cache;
    same_alpha = g.same_alpha ∙ f.same_alpha;
  }

  -- A lookup of a value: either a value and no nodes, or known nodes only.
  abbrev pub Looked : Server Cache → Server Cache × (Option Bytes × List Node) → Type 0
  Looked s r = After us s r.0 × All (IsPeer us) r.1.1

  store_found-Looked :
      (start s : Server Cache) (target : Node) (o : Option Bytes) (cached_on : Option Node)
      → After us start s
      → OfSome (IsPeer us) cached_on
      → Returns (Looked start) (store_found world s target (hit o cached_on))
  unfolding store_found
  store_found-Looked start s target none cached_on v known = Returns-done _ _ (v, tt)
  store_found-Looked start s target (some x) none v known = Returns-done _ _ (v, tt)
  store_found-Looked start s target (some x) (some peer) v known =
      Returns-and_then _ _ _ _
        (write_calls-Ends world.parses world.answer s.shared peer v.ready.table_ok known.1 target.id
          x [] []).0
        (λ stored ends.
          Returns-done _ _ (After-trans v (Ending-After v.ready known.1 ends.ending), tt))

  pub crawl_value-Looked :
      (s : Server Cache) (target : Node) (nearest : List Node)
      → 0 < s.alpha
      → IsReady us s.shared.router
      → All (IsPeer us) nearest
      → Returns (Looked s) (crawl_value world s target nearest)
  unfolding crawl_value finished store_found
  crawl_value-Looked s target nearest active ready known =
      let net : IsNetwork us (value_response world s.shared target) world.order = record {
        named = laws.names_value s.shared target;
        ordered = laws.ordered;
      } in
      let e =
        value_find-Ends us (value_response world s.shared target) world.order world.order_counts net
          laws.ordered_counts (λ v. true) (λ n v h. refl) target nearest s.ksize s.alpha world.fuel
          active known laws.enough in
      elim e [
        | inl found ↦
            Returns-and_then _ _ _ _ (ended (hit found.found found.cached_on) _ found.result)
              (λ r same. Returns-and_then _ _ _ _ (settled-After s ready) (λ s' v.
                subst (λ r. Returns (Looked s) (store_found world s' target r)) (sym same)
                  (store_found-Looked s s' target found.found found.cached_on v
                    found.cached_known)))
        | inr missed ↦
            Returns-and_then _ _ _ _
              (ended (miss (NodeHeap.to_vec missed.ended.base.nearest)) _ missed.result)
              (λ r same. Returns-and_then _ _ _ _ (settled-After s ready) (λ s' v.
                subst (λ r. Returns (Looked s) (store_found world s' target r)) (sym same)
                  (Returns-done _ _ (v, missed.lasts.peers))))
      ]
    where
      ended :
          (r : ValueResult) (o : Option ValueResult)
          → o ≡ some r
          → Returns (λ x. x ≡ r) (finished o)
      ended r o e = record { value = r; result = ap finished e; holds = refl }

  pub crawl_nodes-known :
      (s : Server Cache) (target : Node) (nearest : List Node)
      → 0 < s.alpha
      → IsReady us s.shared.router
      → All (IsPeer us) nearest
      → Returns
          (λ (r : Server Cache × List Node). After us s r.0 × All (IsPeer us) r.1)
          (crawl_nodes world s target nearest)
  unfolding crawl_nodes finished
  crawl_nodes-known s target nearest active ready known =
      let net : IsNetwork us (node_response world s.shared target) world.order = record {
        named = laws.names_node s.shared target;
        ordered = laws.ordered;
      } in
      let f =
        node_find-FindsNodes us (node_response world s.shared target) world.order net target nearest
          s.ksize s.alpha world.fuel active known laws.enough in
      Returns-and_then (All (IsPeer us)) _ _ _
        (record { value = NodeHeap.to_vec f.last; result = ap finished f.result; holds = f.peers })
        (λ ns peers.
          Returns-and_then _ _ _ _ (settled-After s ready) (λ s' v. Returns-done _ _ (v, peers)))
