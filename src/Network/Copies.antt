-- ===== src/Network/Copies.antt =====
-- `set_digest`, `update_digest` and `delete_digest`: they return, and what they do to the store.
use auth_kademlia.Prelude.{
  ℕ, ◌^◌, ◌<◌, ◌≡◌, refl, sym, subst, ◌∙◌, ◌⊎◌, inl, inr, Bool, not, Option, none, some, List, [],
  arith, ◌∷◌, All, any, Bool-cases, ltb,
}
use auth_kademlia.Prelude.Bytes.{Bytes}
use auth_kademlia.Node.{Node, from_id, distance_to, same_id}
use auth_kademlia.Routing.Table.{Outcome, done}
use auth_kademlia.Routing.Table.Place.{IsTable}
use auth_kademlia.Storage
use auth_kademlia.Storage.{ForgetfulStorage}
use auth_kademlia.Crawling.Contacts.{IsPeer}
use auth_kademlia.Protocol.{SignatureVerifierHandler, CacheOps, KademliaProtocol}
use auth_kademlia.Protocol.Cache.{IsCache}
use auth_kademlia.Protocol.Chain.{
  and_then, Returns, Returns-done, Returns-and_then, Returns-map, Returns-if,
}
use auth_kademlia.Protocol.Message.{RpcMessage}
use auth_kademlia.Protocol.Calls.{Called, call_store_rpc, call_delete_rpc}
use auth_kademlia.Protocol.Called.{Ending, unsent, answered, removed, Ends, write_calls-Ends}
use auth_kademlia.Network.{Server, World, with_router, with_shared, is_empty, status_list_key}
use auth_kademlia.Network.Publish.{
  farthest, call_all, keep_copy, set_digest, update_call, update_digest, delete_digest,
}
use auth_kademlia.Network.Lookup.{IsWorld, crawl_nodes-known}
use auth_kademlia.Network.Settled.{neighbors_of-IsReady}
use auth_kademlia.Network.Get.{IsServer, routed-After}

-- A state whose router is in order, with a given store.
abbrev pub Keeps : {Cache : Type 0} → ForgetfulStorage → KademliaProtocol Cache → Type 0
Keeps storage p = IsTable p.router × (p.storage ≡ storage)

-- The store before, or the next one.
abbrev pub OneOf : ForgetfulStorage → ForgetfulStorage → ForgetfulStorage → Type 0
OneOf before next after = (after ≡ before) ⊎ (after ≡ next)

-- A server that wrote, or did not.
abbrev pub Wrote :
    {Cache A : Type 0} → ForgetfulStorage → ForgetfulStorage → Server Cache × A → Type 0
Wrote before next r = IsTable r.0.shared.router × OneOf before next r.0.shared.storage

module _ {Cache : Type 0} (world : World) where
  Ending-storage :
      {A : Type 0} {p : KademliaProtocol Cache} {peer : Node} {message : RpcMessage}
      {read : Option RpcMessage → Option A} {failed : A} {r : Called Cache A}
      → Ending world.parses world.answer p peer message read failed r
      → r.0.storage ≡ p.storage
  Ending-storage (unsent h) = refl
  Ending-storage (answered addr a h e) = refl
  Ending-storage (removed addr t h e k) = refl

  same_store :
      {A : Type 0} (p : KademliaProtocol Cache) (peer : Node) (v : IsTable p.router)
      (fits : peer.long_id < 2 ^ 128) (message : RpcMessage) (read : Option RpcMessage → Option A)
      (failed : A) (o : Outcome (Called Cache A))
      → Returns (Ends world.parses world.answer p peer v fits message read failed) o
      → Returns (λ r. Keeps p.storage r.0) o
  same_store p peer v fits message read failed o r =
      Returns-map _ _ _ (λ r e. (e.router_ok, Ending-storage e.ending)) r

  -- Calls of peers, each of which returns and keeps the store.
  abbrev CallKeeps : (KademliaProtocol Cache → Node → Outcome (Called Cache Bool)) → Type 0
  CallKeeps call =
      (p : KademliaProtocol Cache) (n : Node)
      → IsTable p.router
      → n.long_id < 2 ^ 128
      → Returns (λ r. Keeps p.storage r.0) (call p n)

  call_all-Keeps :
      (us : List Bytes) (call : KademliaProtocol Cache → Node → Outcome (Called Cache Bool))
      (p : KademliaProtocol Cache) (ns : List Node)
      → CallKeeps call
      → IsTable p.router
      → All (IsPeer us) ns
      → Returns (λ (r : Called Cache (List Bool)). Keeps p.storage r.0) (call_all call p ns)
  unfolding call_all
  call_all-Keeps us call p [] each v known = Returns-done _ _ (v, refl)
  call_all-Keeps us call p (n ∷ ns) each v known =
      Returns-and_then _ _ _ _ (each p n v known.0.1) (λ one (table_ok, same).
        Returns-and_then _ _ _ _ (call_all-Keeps us call one.0 ns each table_ok known.1)
          (λ rest (rest_ok, rest_same). Returns-done _ _ (rest_ok, rest_same ∙ same)))

  store_keeps :
      (key value : Bytes)
      → CallKeeps (λ p n. call_store_rpc world.parses world.answer p n key value)
  store_keeps key value p n v fits =
      same_store p n v fits _ _ _ _
        (write_calls-Ends world.parses world.answer p n v fits key value [] []).0

  update_keeps :
      (key dkey value : Bytes) (auth_signature : Option Bytes)
      → CallKeeps (update_call world key dkey value auth_signature)
  unfolding update_call
  update_keeps key dkey value auth_signature p n v fits =
      Returns-if _ (same_id key status_list_key) _ _
        (λ _.
          same_store p n v fits _ _ _ _
            (write_calls-Ends world.parses world.answer p n v fits dkey value [] []).2)
        (λ _.
          same_store p n v fits _ _ _ _
            (write_calls-Ends world.parses world.answer p n v fits dkey value _ []).1)

  delete_keeps :
      (key sig msg : Bytes)
      → CallKeeps (λ p n. call_delete_rpc world.parses world.answer p n key sig msg)
  delete_keeps key sig msg p n v fits =
      same_store p n v fits _ _ _ _
        (write_calls-Ends world.parses world.answer p n v fits key [] sig msg).3

  keep_copy-kept :
      (s : Server Cache) (now : ℕ) (dkey value : Bytes) (far : Option ℕ)
      → OneOf s.shared.storage
          (Storage.set s.shared.storage now dkey value)
          (keep_copy s now dkey value far).shared.storage
        × ((keep_copy s now dkey value far).shared.router ≡ s.shared.router)
  unfolding keep_copy with_shared
  keep_copy-kept s now dkey value none = (inl refl, refl)
  keep_copy-kept s now dkey value (some far) =
      elim (Bool-cases (ltb (distance_to s.shared.source_node (from_id dkey)) far)) [
        | inl nearer ↦ rw nearer (inr refl, refl)
        | inr farther ↦ rw farther (inl refl, refl)
      ]

module _ {Cache : Type 0} (us : List Bytes) (world : World) (laws : IsWorld Cache us world)
    (ops : CacheOps Cache) (handler : SignatureVerifierHandler) (cache_laws : IsCache ops) where
  copy-Keeps :
      (s : Server Cache) (now : ℕ) (dkey value : Bytes) (nodes : List Node)
      (call : KademliaProtocol Cache → Node → Outcome (Called Cache Bool))
      → CallKeeps world call
      → IsTable s.shared.router
      → All (IsPeer us) nodes
      → Returns (Wrote s.shared.storage (Storage.set s.shared.storage now dkey value)) (
          and_then
            (call_all call
              (keep_copy s now dkey value (farthest (from_id dkey) nodes)).shared
              nodes)
            (λ results. done (
              with_shared (keep_copy s now dkey value (farthest (from_id dkey) nodes)) results.0,
              any (λ ok. ok) results.1,
            )))
  unfolding with_shared
  copy-Keeps s now dkey value nodes call each v known =
      let (kept, same_router) =
        keep_copy-kept world s now dkey value (farthest (from_id dkey) nodes) in
      Returns-and_then _ _ _ _
        (call_all-Keeps world us call _ nodes each (subst IsTable (sym same_router) v) known)
        (λ results (table_ok, same). Returns-done _ _ (
          table_ok,
          subst (OneOf s.shared.storage (Storage.set s.shared.storage now dkey value)) (sym same)
              kept,
        ))

  pub set_digest-Wrote :
      (s : Server Cache) (now : ℕ) (dkey value : Bytes) (nodes : List Node)
      → IsTable s.shared.router
      → All (IsPeer us) nodes
      → Returns
          (Wrote s.shared.storage (Storage.set s.shared.storage now dkey value))
          (set_digest world s now dkey value nodes)
  unfolding set_digest
  set_digest-Wrote s now dkey value nodes v known =
      Returns-if _ (not s.listening) _ _ (λ _. Returns-done _ _ (v, inl refl))
        (λ _.
          Returns-if _ (is_empty nodes) _ _ (λ _. Returns-done _ _ (v, inl refl))
            (λ _. copy-Keeps s now dkey value nodes _ (store_keeps world dkey value) v known))

  pub update_digest-Wrote :
      (s : Server Cache) (now : ℕ) (key dkey value : Bytes) (auth_signature : Option Bytes)
      → IsServer us ops handler s
      → (from_id dkey).long_id < 2 ^ 128
      → Returns
          (Wrote s.shared.storage (Storage.set s.shared.storage now dkey value))
          (update_digest world s now key dkey value auth_signature)
  unfolding update_digest
  update_digest-Wrote s now key dkey value auth_signature v fits =
      Returns-if _ (not s.listening) _ _ (λ _. Returns-done _ _ (v.ready.table_ok, inl refl))
        (λ _.
          Returns-and_then _ _ _ _
            (neighbors_of-IsReady us now s.shared.router (from_id dkey) v.ready fits)
            (λ nearest (ready, near).
              let routed = routed-After us world laws ops handler cache_laws s nearest.0 ready in
              Returns-if _ (is_empty nearest.1) _ _
                (λ _. Returns-done _ _ (routed.ready.table_ok, inl routed.same_storage))
                (λ _.
                  Returns-and_then _ _ _ _
                    (crawl_nodes-known us world laws (with_router s nearest.0) (from_id dkey)
                      nearest.1 (omega (arith, v.active, routed.same_alpha)) routed.ready near)
                    (λ found (looked, known).
                      subst
                        (λ b. Returns (Wrote b (Storage.set b now dkey value)) (
                          and_then
                            (call_all (update_call world key dkey value auth_signature)
                              (keep_copy found.0 now dkey value
                                (farthest (from_id dkey) found.1)).shared
                              found.1)
                            (λ results. done (
                              with_shared
                                  (keep_copy found.0 now dkey value
                                    (farthest (from_id dkey) found.1))
                                  results.0,
                              any (λ ok. ok) results.1,
                            ))))
                        (looked.same_storage ∙ routed.same_storage)
                        (copy-Keeps found.0 now dkey value found.1 _
                          (update_keeps world key dkey value auth_signature) looked.ready.table_ok
                          known)))))

  pub delete_digest-Wrote :
      (s : Server Cache) (now : ℕ) (dkey sig msg : Bytes)
      → IsServer us ops handler s
      → (from_id dkey).long_id < 2 ^ 128
      → Returns
          (Wrote s.shared.storage (Storage.delete s.shared.storage dkey))
          (delete_digest world s now dkey sig msg)
  unfolding delete_digest with_router with_shared
  delete_digest-Wrote s now dkey sig msg v fits =
      Returns-if _ (not s.listening) _ _ (λ _. Returns-done _ _ (v.ready.table_ok, inl refl))
        (λ _.
          Returns-and_then _ _ _ _
            (neighbors_of-IsReady us now s.shared.router (from_id dkey) v.ready fits)
            (λ nearest (ready, near).
              Returns-if _ (is_empty nearest.1) _ _
                (λ _. Returns-done _ _ (ready.table_ok, inr refl))
                (λ _.
                  Returns-and_then _ _ _ _
                    (crawl_nodes-known us world laws
                      (with_router
                        (with_shared s
                          (record s.shared { storage = Storage.delete s.shared.storage dkey }))
                        nearest.0)
                      (from_id dkey) nearest.1 v.active ready near)
                    (λ found (looked, known).
                      Returns-and_then _ _ _ _
                        (call_all-Keeps world us _ _ found.1 (delete_keeps world dkey sig msg)
                          looked.ready.table_ok known)
                        (λ results (table_ok, same).
                          Returns-done _ _ (table_ok, inr (same ∙ looked.same_storage)))))))
