-- ===== src/Network/Publish.antt =====
-- src/network.rs: what `Server` writes, and how it joins and leaves the network. The calls of several
-- peers at once are made in the order of the list.
use mathlib.Core.Option
use auth_kademlia.Prelude.{
  ℕ, Bool, true, false, ◌&&◌, not, Option, none, some, List, [], ◌∷◌, any, ltb, if◌then◌else◌,
}
use auth_kademlia.Prelude.Bytes.{Bytes}
use auth_kademlia.Node.{Node, same_id, from_id, distance_to}
use auth_kademlia.Routing.Table.{Outcome, done}
use auth_kademlia.Storage
use auth_kademlia.Protocol.{SignatureVerifierHandler, CacheOps, KademliaProtocol, unwrap_or_false}
use auth_kademlia.Protocol.Chain.{and_then, neighbors_of}
use auth_kademlia.Protocol.Calls.{
  Called, call_store_rpc, call_update_rpc, call_status_list_update_rpc, call_delete_rpc,
}
use auth_kademlia.Network.{
  Server, World, status_list_key, with_router, with_shared, is_empty, crawl_nodes, verify_value,
  get, check_exists_and_get_nodes,
}

abbrev is_none : {A : Type 0} → Option A → Bool
is_none none = true
is_none (some a) = false

-- `max` of the distances.
unfoldable pub farthest : Node → List Node → Option ℕ
farthest target [] = none
farthest target (n ∷ ns) = elim (farthest target ns) [
  | none ↦ some (distance_to n target)
  | some d ↦ some (if ltb d (distance_to n target) then distance_to n target else d)
]

-- The calls of all nodes, and what they answer.
unfoldable pub call_all :
    {Cache : Type 0}
    → (KademliaProtocol Cache → Node → Outcome (Called Cache Bool))
    → KademliaProtocol Cache
    → List Node
    → Outcome (Called Cache (List Bool))
call_all call p [] = done (p, [])
call_all call p (n ∷ ns) =
    and_then (call p n)
      (λ one. and_then (call_all call one.0 ns) (λ rest. done (rest.0, one.1 ∷ rest.1)))

-- The copy that a node keeps that is nearer to the key than the farthest of the nodes.
unfoldable pub keep_copy :
    {Cache : Type 0} → Server Cache → ℕ → Bytes → Bytes → Option ℕ → Server Cache
keep_copy s now dkey value none = s
keep_copy s now dkey value (some far) =
    if ltb (distance_to s.shared.source_node (from_id dkey)) far
    then with_shared s (record s.shared { storage = Storage.set s.shared.storage now dkey value })
    else s

unfoldable pub is_authenticated :
    SignatureVerifierHandler → Bytes → Bytes → Bytes → Option Bytes → Bool
is_authenticated handler key value old_value auth_signature =
    if same_id key status_list_key && is_none auth_signature
    then unwrap_or_false (handler.handle_issuer_node_signature_verification value)
    else unwrap_or_false
        (handler.handle_update_verification value old_value (Option.get_or auth_signature []))

module _ {Cache : Type 0} (world : World) where
  unfoldable pub set_digest :
      Server Cache → ℕ → Bytes → Bytes → List Node → Outcome (Server Cache × Bool)
  unfolding keep_copy with_shared call_all farthest
  set_digest s now dkey value nodes =
      if not s.listening
      then done (s, false)
      else if is_empty nodes
      then done (s, false)
      else let s' = keep_copy s now dkey value (farthest (from_id dkey) nodes) in
        and_then
          (call_all (λ p n. call_store_rpc world.parses world.answer p n dkey value) s'.shared
            nodes)
          (λ results. done (with_shared s' results.0, any (λ ok. ok) results.1))

  -- The call that updates the record on a node.
  unfoldable pub update_call :
      Bytes
      → Bytes
      → Bytes
      → Option Bytes
      → KademliaProtocol Cache
      → Node
      → Outcome (Called Cache Bool)
  update_call key dkey value auth_signature p n =
      if same_id key status_list_key
      then call_status_list_update_rpc world.parses world.answer p n dkey value
      else call_update_rpc world.parses world.answer p n dkey value
          (Option.get_or auth_signature [])

  unfoldable pub update_digest :
      Server Cache → ℕ → Bytes → Bytes → Bytes → Option Bytes → Outcome (Server Cache × Bool)
  unfolding keep_copy with_shared call_all farthest update_call crawl_nodes
  update_digest s now key dkey value auth_signature =
      if not s.listening
      then done (s, false)
      else and_then (neighbors_of now s.shared.router (from_id dkey) none) (λ nearest.
        let s1 = with_router s nearest.0 in
        if is_empty nearest.1
        then done (s1, false)
        else and_then (crawl_nodes world s1 (from_id dkey) nearest.1) (λ found.
          let s2 = keep_copy found.0 now dkey value (farthest (from_id dkey) found.1) in
          and_then (call_all (update_call key dkey value auth_signature) s2.shared found.1)
            (λ results. done (with_shared s2 results.0, any (λ ok. ok) results.1))))

  unfoldable pub delete_digest :
      Server Cache → ℕ → Bytes → Bytes → Bytes → Outcome (Server Cache × Bool)
  unfolding with_shared call_all crawl_nodes
  delete_digest s now dkey auth_signature delete_msg =
      if not s.listening
      then done (s, false)
      else let s0 =
          with_shared s (record s.shared { storage = Storage.delete s.shared.storage dkey }) in
        and_then (neighbors_of now s0.shared.router (from_id dkey) none) (λ nearest.
          let s1 = with_router s0 nearest.0 in
          if is_empty nearest.1
          then done (s1, true)
          else and_then (crawl_nodes world s1 (from_id dkey) nearest.1) (λ found.
            and_then
              (call_all
                (λ p n.
                  call_delete_rpc world.parses world.answer p n dkey auth_signature delete_msg)
                found.0.shared found.1)
              (λ results. done (with_shared found.0 results.0, true))))

  unfoldable pub some_of : Server Cache × Bool → Server Cache × Option Bool
  some_of r = (r.0, some r.1)

  module _ (ops : CacheOps Cache) (handler : SignatureVerifierHandler) where
    -- `set`, past the check that the key is free.
    unfoldable pub set_verified :
        Server Cache → ℕ → Bytes → Bytes → List Node → Outcome (Server Cache × Option Bool)
    unfolding set_digest some_of
    set_verified s now key value nodes =
        let v = verify_value world ops handler s key value in
        if not v.1
        then done (v.0, none)
        else and_then (set_digest v.0 now (world.digest key) value nodes) (λ r. done (some_of r))

    unfoldable pub set : Server Cache → ℕ → Bytes → Bytes → Outcome (Server Cache × Option Bool)
    unfolding set_verified
    set s now key value =
        and_then (check_exists_and_get_nodes world ops handler s now key) (λ found.
          if found.1.0 then done (found.0, none) else set_verified found.0 now key value found.1.1)

    unfoldable pub update_from :
        Server Cache
        → ℕ
        → Bytes
        → Bytes
        → Option Bytes
        → Option Bytes
        → Outcome (Server Cache × Option Bool)
    unfolding update_digest some_of is_authenticated
    update_from s now key value auth_signature none = done (s, none)
    update_from s now key value auth_signature (some old_value) =
        if not (is_authenticated handler key value old_value auth_signature)
        then done (s, none)
        else and_then (update_digest s now key (world.digest key) value auth_signature)
            (λ r. done (some_of r))

    unfoldable pub update :
        Server Cache → ℕ → Bytes → Bytes → Option Bytes → Outcome (Server Cache × Option Bool)
    unfolding update_from
    update s now key value auth_signature =
        and_then (get world ops handler s now key)
          (λ old. update_from old.0 now key value auth_signature old.1)

    unfoldable pub delete_from :
        Server Cache
        → ℕ
        → Bytes
        → Bytes
        → Bytes
        → Option Bytes
        → Outcome (Server Cache × Option Bool)
    unfolding delete_digest some_of
    delete_from s now key auth_signature delete_msg none = done (s, none)
    delete_from s now key auth_signature delete_msg (some value) =
        if not (
          unwrap_or_false
            (handler.handle_signature_delete_operation value auth_signature delete_msg))
        then done (s, none)
        else and_then (delete_digest s now (world.digest key) auth_signature delete_msg)
            (λ r. done (some_of r))

    unfoldable pub delete :
        Server Cache → ℕ → Bytes → Bytes → Bytes → Outcome (Server Cache × Option Bool)
    unfolding delete_from
    delete s now key auth_signature delete_msg =
        and_then (get world ops handler s now key)
          (λ old. delete_from old.0 now key auth_signature delete_msg old.1)
