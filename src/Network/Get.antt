-- ===== src/Network/Get.antt =====
-- `Server::get` and `check_exists_and_get_nodes`: they return, and what they answer.
use auth_kademlia.Prelude.{
  ℕ, ◌<◌, ◌≡◌, refl, sym, subst, ◌∙◌, true, arith, inl, inr, Bool, Option, none, some, List, All,
  Bool-cases, Option-cases,
}
use auth_kademlia.Prelude.Bytes.{Bytes}
use auth_kademlia.Node.{Node, from_id}
use auth_kademlia.Routing.Table.{RoutingTable}
use auth_kademlia.Storage
use auth_kademlia.Storage.{ForgetfulStorage}
use auth_kademlia.Crawling.Contacts.{IsPeer}
use auth_kademlia.Protocol.{SignatureVerifierHandler, CacheOps}
use auth_kademlia.Protocol.Cache.{AllSound, IsCache, Held, Verified}
use auth_kademlia.Protocol.Chain.{Returns, Returns-done, Returns-and_then, Returns-if}
use auth_kademlia.Network.{
  Server, World, with_router, status_list_key, is_empty, verify_value, if_verified,
  get_from_network, get, exists_if_verified, exists_in_network, check_exists_and_get_nodes,
}
use auth_kademlia.Network.Verify.{verify_value-Judged}
use auth_kademlia.Network.Settled.{IsReady, neighbors_of-IsReady}
use auth_kademlia.Network.Lookup.{IsWorld, After, After-trans, digest_fits, crawl_value-Looked}

-- A server in order: its router is ready, it asks at least one peer in a round, and its cache is
-- sound.
pub record IsServer {Cache : Type 0} (us : List Bytes) (ops : CacheOps Cache)
    (handler : SignatureVerifierHandler) (s : Server Cache) : Type 0 where
  pub ready : IsReady us s.shared.router
  pub active : 0 < s.alpha
  pub sound : AllSound ops handler s.shared.sig_cache

-- A value that the check of the key accepts, or that the server's cache has as accepted.
abbrev pub VerifiedAt :
    {Cache : Type 0}
    → CacheOps Cache
    → SignatureVerifierHandler
    → Server Cache
    → Bytes
    → Bytes
    → Type 0
VerifiedAt ops handler s key value =
    Verified ops handler status_list_key s.shared.sig_cache key value

-- A server in order after reading under a key: the store is the same, and the cache has no further
-- value as accepted than one that the check of the key accepts.
pub record Reads {Cache : Type 0} (us : List Bytes) (ops : CacheOps Cache)
    (handler : SignatureVerifierHandler) (s : Server Cache) (key : Bytes) (s' : Server Cache)
    : Type 0 where
  pub server_ok : IsServer us ops handler s'
  pub same_storage : s'.shared.storage ≡ s.shared.storage
  pub held : (w : Bytes) → Held ops s'.shared.sig_cache w true → VerifiedAt ops handler s key w

-- What `get` leaves and answers: a value is verified under the key.
pub record Got {Cache : Type 0} (us : List Bytes) (ops : CacheOps Cache)
    (handler : SignatureVerifierHandler) (s : Server Cache) (key : Bytes)
    (r : Server Cache × Option Bytes) : Type 0 where
  pub reads : Reads us ops handler s key r.0
  pub verified : (v : Bytes) → r.1 ≡ some v → VerifiedAt ops handler s key v

-- What `check_exists_and_get_nodes` leaves and answers: known nodes, and none where the key is taken.
pub record Checked {Cache : Type 0} (us : List Bytes) (ops : CacheOps Cache)
    (handler : SignatureVerifierHandler) (s : Server Cache) (key : Bytes)
    (r : Server Cache × (Bool × List Node)) : Type 0 where
  pub reads : Reads us ops handler s key r.0
  pub nodes_known : All (IsPeer us) r.1.1

module _ {Cache : Type 0} (us : List Bytes) (world : World) (laws : IsWorld Cache us world)
    (ops : CacheOps Cache) (handler : SignatureVerifierHandler) (cache_laws : IsCache ops) where
  -- A server that reads nothing, or after a lookup, reads under any key.
  same-Reads :
      (s : Server Cache) (key : Bytes) → IsServer us ops handler s → Reads us ops handler s key s
  same-Reads s key v = record { server_ok = v; same_storage = refl; held = λ w h. inr h }

  pub After-IsServer :
      (s s' : Server Cache) → IsServer us ops handler s → After us s s' → IsServer us ops handler s'
  After-IsServer s s' v f = record {
    ready = f.ready;
    active = omega (arith, v.active, f.same_alpha);
    sound = subst (AllSound ops handler) (sym f.same_cache) v.sound;
  }

  pub verify_value-Reads :
      (s : Server Cache) (key value : Bytes)
      → IsServer us ops handler s
      → Reads us ops handler s key (verify_value world ops handler s key value).0
  unfolding verify_value
  verify_value-Reads s key value v =
      let j = verify_value-Judged world ops handler cache_laws s key value in
      record {
        server_ok = record {
          ready = v.ready;
          active = v.active;
          sound = unfold verify_value in (j.sound v.sound);
        };
        same_storage = refl;
        held = unfold verify_value in j.held;
      }

  if_verified-Got :
      (s : Server Cache) (key : Bytes) (o : Option Bytes)
      → IsServer us ops handler s
      → Got us ops handler s key (if_verified world ops handler s key o)
  unfolding if_verified
  if_verified-Got s key none v = record {
    reads = same-Reads s key v;
    verified = λ w e. absurd (ground arith);
  }
  if_verified-Got s key (some value) v =
      let j = verify_value-Judged world ops handler cache_laws s key value in
      record {
        reads = verify_value-Reads s key value v;
        verified = elim (Bool-cases (verify_value world ops handler s key value).1) [
          | inr bad ↦ rw bad (λ w e. absurd (ground arith))
          | inl good ↦ rw good (λ w e.
              let same : value ≡ w = ground arith in
              subst (VerifiedAt ops handler s key) same (j.accepted good))
        ];
      }

  -- What is read after a search and a lookup is read by the server before them.
  earlier-Reads :
      (s s' next : Server Cache) (key : Bytes)
      → After us s s'
      → Reads us ops handler s' key next
      → Reads us ops handler s key next
  earlier-Reads s s' next key f r = record {
    server_ok = r.server_ok;
    same_storage = r.same_storage ∙ f.same_storage;
    held =
        λ w h. subst (λ o. Verified ops handler status_list_key o key w) f.same_cache (r.held w h);
  }

  -- The server after a search of its router.
  pub routed-IsServer :
      (s : Server Cache) (t : RoutingTable)
      → IsServer us ops handler s
      → IsReady us t
      → IsServer us ops handler (with_router s t)
  unfolding with_router
  routed-IsServer s t v ready = record { ready = ready; active = v.active; sound = v.sound }

  pub routed-After :
      (s : Server Cache) (t : RoutingTable) → IsReady us t → After us s (with_router s t)
  unfolding with_router
  routed-After s t ready = record {
    ready = ready;
    same_storage = refl;
    same_cache = refl;
    same_alpha = refl;
  }

  routed-Reads :
      (s : Server Cache) (t : RoutingTable) (key : Bytes)
      → IsServer us ops handler s
      → IsReady us t
      → Reads us ops handler s key (with_router s t)
  routed-Reads s t key v ready =
      earlier-Reads s (with_router s t) (with_router s t) key (routed-After s t ready)
        (same-Reads (with_router s t) key (routed-IsServer s t v ready))

  get_from_network-Got :
      (s : Server Cache) (now : ℕ) (key : Bytes)
      → IsServer us ops handler s
      → Returns (Got us ops handler s key) (get_from_network world ops handler s now key)
  unfolding get_from_network
  get_from_network-Got s now key v =
      let target = from_id (world.digest key) in
      Returns-and_then _ _ _ _
        (neighbors_of-IsReady us now s.shared.router target v.ready (digest_fits us world laws key))
        (λ nearest (ready, known).
          let s' = with_router s nearest.0 in
          let routed = routed-After s nearest.0 ready in
          Returns-if _ (is_empty nearest.1) _ _
            (λ _. Returns-done _ _ (record {
              reads = routed-Reads s nearest.0 key v ready;
              verified = λ w e. absurd (ground arith);
            }))
            (λ _.
              Returns-and_then _ _ _ _
                (crawl_value-Looked us world laws s' target nearest.1
                  (omega (arith, v.active, routed.same_alpha)) routed.ready known)
                (λ found (looked, _).
                  let before = After-trans us world laws routed looked in
                  let g =
                    if_verified-Got found.0 key found.1.0 (After-IsServer s found.0 v before) in
                  Returns-done _ _ (record {
                    reads = earlier-Reads s found.0 _ key before g.reads;
                    verified = λ w e.
                        subst (λ o. Verified ops handler status_list_key o key w) before.same_cache
                          (g.verified w e);
                  }))))

  -- For a server in order in a network of known peers, where each call that a lookup makes of the
  -- router can be made, and with a cache that gives back what was inserted and tells values apart,
  -- `get` returns with the server in order and the same store. It answers with a value only if the
  -- check that belongs to the key accepts it, the issuer's for the status list and the value's own
  -- signature for any other key, or if the cache had it as accepted; and the cache then has no
  -- further value as accepted than this check accepts.
  pub get-Got :
      (s : Server Cache) (now : ℕ) (key : Bytes)
      → IsServer us ops handler s
      → Returns (Got us ops handler s key) (get world ops handler s now key)
  unfolding get
  get-Got s now key v = elim (Option-cases (Storage.get s.shared.storage now (world.digest key))) [
    | inr (value, e) ↦ rw (e, get) (Returns-done _ _ (if_verified-Got s key (some value) v))
    | inl e ↦
        rw (e, get)
          (Returns-if _ s.listening _ _ (λ _. get_from_network-Got s now key v)
            (λ _.
              Returns-done _ _
                (record { reads = same-Reads s key v; verified = λ w e. absurd (ground arith) })))
  ]

  exists_if_verified-Checked :
      (s : Server Cache) (key : Bytes) (found : Option Bytes × List Node)
      → IsServer us ops handler s
      → All (IsPeer us) found.1
      → Checked us ops handler s key (exists_if_verified world ops handler s key found)
  unfolding exists_if_verified
  exists_if_verified-Checked s key (none, nodes) v known = record {
    reads = same-Reads s key v;
    nodes_known = known;
  }
  exists_if_verified-Checked s key (some value, nodes) v known = record {
    reads = verify_value-Reads s key value v;
    nodes_known = elim (Bool-cases (verify_value world ops handler s key value).1) [
      | inl good ↦ rw good tt
      | inr bad ↦ rw bad known
    ];
  }

  exists_in_network-Checked :
      (s : Server Cache) (now : ℕ) (key : Bytes)
      → IsServer us ops handler s
      → Returns (Checked us ops handler s key) (exists_in_network world ops handler s now key)
  unfolding exists_in_network
  exists_in_network-Checked s now key v =
      let target = from_id (world.digest key) in
      Returns-and_then _ _ _ _
        (neighbors_of-IsReady us now s.shared.router target v.ready (digest_fits us world laws key))
        (λ nearest (ready, known).
          let s' = with_router s nearest.0 in
          let routed = routed-After s nearest.0 ready in
          Returns-if _ (is_empty nearest.1) _ _
            (λ _.
              Returns-done _ _
                (record { reads = routed-Reads s nearest.0 key v ready; nodes_known = tt }))
            (λ _.
              Returns-and_then _ _ _ _
                (crawl_value-Looked us world laws s' target nearest.1
                  (omega (arith, v.active, routed.same_alpha)) routed.ready known)
                (λ found (looked, peers).
                  let before = After-trans us world laws routed looked in
                  let g =
                    exists_if_verified-Checked found.0 key found.1
                      (After-IsServer s found.0 v before) peers in
                  Returns-done _ _ (record {
                    reads = earlier-Reads s found.0 _ key before g.reads;
                    nodes_known = g.nodes_known;
                  }))))

  pub check_exists_and_get_nodes-Checked :
      (s : Server Cache) (now : ℕ) (key : Bytes)
      → IsServer us ops handler s
      → Returns
          (Checked us ops handler s key)
          (check_exists_and_get_nodes world ops handler s now key)
  unfolding check_exists_and_get_nodes
  check_exists_and_get_nodes-Checked s now key v =
      elim (Option-cases (Storage.get s.shared.storage now (world.digest key))) [
        | inr (value, e) ↦
            rw (e, check_exists_and_get_nodes)
              (Returns-done _ _ (record { reads = same-Reads s key v; nodes_known = tt }))
        | inl e ↦
            rw (e, check_exists_and_get_nodes)
              (Returns-if _ s.listening _ _ (λ _. exists_in_network-Checked s now key v)
                (λ _. Returns-done _ _ (record { reads = same-Reads s key v; nodes_known = tt })))
      ]
