-- ===== src/Network/Join.antt =====
-- src/network.rs: how a server joins and leaves the network, and one pass of the refresh loop. The
-- lookups of several identifiers at once are made one after the other.
use auth_kademlia.Prelude.{
  ℕ, ◌<◌, ◌≡◌, inl, inr, ◌||◌, not, Option, none, some, List, [], ◌∷◌, length, All, Option-cases,
  ◌==◌, if◌then◌else◌,
}
use auth_kademlia.Prelude.Bytes.{Bytes}
use auth_kademlia.Node
use auth_kademlia.Node.{Node, id_len, from_id, address}
use auth_kademlia.Routing.Table.{Outcome, done}
use auth_kademlia.Storage
use auth_kademlia.Crawling.Contacts.{IsPeer}
use auth_kademlia.Protocol.{KademliaProtocol}
use auth_kademlia.Protocol.Chain.{
  and_then, neighbors_of, Returns, Returns-done, Returns-map, Returns-if,
}
use auth_kademlia.Protocol.Message.{RpcMessage}
use auth_kademlia.Protocol.Welcome.{get_refresh_ids}
use auth_kademlia.Protocol.Calls.{call_ping_addr, call_leave_rpc, call_store_rpc}
use auth_kademlia.Network.{Server, World, with_router, with_shared, is_empty, crawl_nodes}
use auth_kademlia.Network.Publish.{call_all}
use auth_kademlia.Network.Settled.{IsReady}
use auth_kademlia.Network.Lookup.{IsWorld, crawl_nodes-known}

-- `filter_map`.
unfoldable pub filter_map : {A B : Type 0} → (A → Option B) → List A → List B
filter_map f [] = []
filter_map f (x ∷ xs) = let rest = filter_map f xs in elim (f x) [ none ↦ rest | some y ↦ y ∷ rest ]

module _ {Cache : Type 0} (world : World) where
  unfoldable pub bootstrap_node : KademliaProtocol Cache → Bytes × ℕ → Option Node
  bootstrap_node p addr =
      let pinged = call_ping_addr world.parses world.answer p addr in
      if not pinged.0 || not (length pinged.1 == id_len)
      then none
      else some (Node.new pinged.1 (some addr.0) (some addr.1))

  unfoldable pub bootstrap : Server Cache → List (Bytes × ℕ) → Outcome (Server Cache × List Node)
  unfolding filter_map bootstrap_node
  bootstrap s addrs =
      if s.listening
      then crawl_nodes world s s.shared.source_node (filter_map (bootstrap_node s.shared) addrs)
      else done (s, [])

  unfoldable pub bootstrappable_neighbors :
      Server Cache → ℕ → Outcome (Server Cache × List (Bytes × ℕ))
  unfolding filter_map with_router
  bootstrappable_neighbors s now =
      if s.listening
      then and_then (neighbors_of now s.shared.router s.shared.source_node none)
          (λ found. done (with_router s found.0, filter_map address found.1))
      else done (s, [])

  -- What `stop` sends to the neighbours.
  unfoldable pub stop : Server Cache → ℕ → Outcome (List ((Bytes × ℕ) × RpcMessage))
  unfolding filter_map
  stop s now =
      if s.listening
      then and_then (neighbors_of now s.shared.router s.shared.source_node none)
          (λ found. done (filter_map (call_leave_rpc world.parses world.answer s.shared) found.1))
      else done []

  -- The lookups of the refresh loop.
  unfoldable pub refresh_buckets : Server Cache → ℕ → List Bytes → Outcome (Server Cache)
  unfolding with_router crawl_nodes
  refresh_buckets s now [] = done s
  refresh_buckets s now (id ∷ ids) =
      and_then (neighbors_of now s.shared.router (from_id id) none) (λ nearest.
        and_then (crawl_nodes world (with_router s nearest.0) (from_id id) nearest.1)
          (λ found. refresh_buckets found.0 now ids))

  -- The old records that the loop stores again on the nodes nearest to their keys.
  unfoldable pub republish : Server Cache → ℕ → List (Bytes × Bytes) → Outcome (Server Cache)
  unfolding with_router with_shared crawl_nodes call_all
  republish s now [] = done s
  republish s now ((key, value) ∷ entries) =
      if not (length key == id_len)
      then republish s now entries
      else and_then (neighbors_of now s.shared.router (from_id key) none) (λ nearest.
        let s1 = with_router s nearest.0 in
        if is_empty nearest.1
        then republish s1 now entries
        else and_then (crawl_nodes world s1 (from_id key) nearest.1) (λ found.
          and_then
            (call_all (λ p n. call_store_rpc world.parses world.answer p n key value) found.0.shared
              found.1)
            (λ results. republish (with_shared found.0 results.0) now entries)))

  unfoldable pub refresh : Server Cache → ℕ → (ℕ → ℕ → ℕ) → Outcome (Server Cache)
  unfolding refresh_buckets republish
  refresh s now random =
      and_then (refresh_buckets s now (get_refresh_ids s.shared now random))
        (λ s'. republish s' now (Storage.iter_older_than s'.shared.storage now 3600))

module _ {Cache : Type 0} (us : List Bytes) (world : World) (laws : IsWorld Cache us world) where
  filter_map-All :
      {A B : Type 0} (P : B → Type 0) (f : A → Option B) (xs : List A)
      → ((x : A) (y : B) → f x ≡ some y → P y)
      → All P (filter_map f xs)
  unfolding filter_map
  filter_map-All P f [] h = tt
  filter_map-All P f (x ∷ xs) h = elim (Option-cases (f x)) [
    | inl e ↦ rw (e, filter_map) (filter_map-All P f xs h)
    | inr (y, e) ↦ rw (e, filter_map) (h x y e, filter_map-All P f xs h)
  ]

  -- A server whose router is ready, that asks at least one peer in a round, and whose pings are
  -- answered by known nodes only returns from `bootstrap`, whatever addresses it is given, with
  -- known nodes only.
  pub bootstrap-known :
      (s : Server Cache) (addrs : List (Bytes × ℕ))
      → 0 < s.alpha
      → IsReady us s.shared.router
      → ((addr : Bytes × ℕ) (n : Node) → bootstrap_node world s.shared addr ≡ some n → IsPeer us n)
      → Returns (λ (r : Server Cache × List Node). All (IsPeer us) r.1) (bootstrap world s addrs)
  unfolding bootstrap
  bootstrap-known s addrs active ready pings =
      Returns-if _ s.listening _ _
        (λ _.
          Returns-map _ _ _ (λ r known. known.1)
            (crawl_nodes-known us world laws s s.shared.source_node
              (filter_map (bootstrap_node world s.shared) addrs) active ready
              (filter_map-All (IsPeer us) (bootstrap_node world s.shared) addrs pings)))
        (λ _. Returns-done _ _ tt)
