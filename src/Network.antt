-- ===== src/Network.antt =====
-- src/network.rs: `Server`, what it reads. A server and its protocol share the store, the cache and
-- the node, so both are one state; there is a protocol once the server listens. SHA-1 is `digest`,
-- what peers answer is `answer`, and the iteration orders of the maps in a lookup are `order` and
-- `order_counts`. An operation reads the clock once, and a lookup makes at most `fuel` rounds.
pub mod Publish
pub mod Verify
pub mod Settled
pub mod Lookup
pub mod Get
pub mod Copies
pub mod Join
pub mod Published
mod Tests
use mathlib.Core.Option
use auth_kademlia.Prelude.{
  ℕ, Bool, true, false, not, Option, none, some, List, [], ◌∷◌, length, ◌==◌, if◌then◌else◌,
}
use auth_kademlia.Prelude.Bytes.{Bytes}
use auth_kademlia.Node
use auth_kademlia.Node.{Node, id_len, same_id, from_id, address}
use auth_kademlia.Routing.Table.{
  RoutingTable, Outcome, done, panic, out_of_fuel, add_contact, remove_contact,
}
use auth_kademlia.Storage
use auth_kademlia.Crawling.{
  RawResponse, Answers, ValueResult, hit, miss, new, new_value, node_find, value_find,
}
use auth_kademlia.Protocol.{SignatureVerifierHandler, CacheOps, KademliaProtocol, unwrap_or_false}
use auth_kademlia.Protocol.Chain.{and_then, neighbors_of}
use auth_kademlia.Protocol.Message.{RpcMessage}
use auth_kademlia.Protocol.Calls.{
  Called, Findings, no_response, call_store_rpc, call_find_node, call_find_value, call_ping_addr,
}

-- The bytes of "did:iiot:status-list".
abbrev pub status_list_key : Bytes
status_list_key =
    100 ∷ 105 ∷ 100 ∷ 58 ∷ 105 ∷ 105 ∷ 111 ∷ 116 ∷ 58 ∷ 115 ∷ 116 ∷ 97 ∷ 116 ∷ 117 ∷ 115 ∷ 45 ∷ 108
    ∷ 105 ∷ 115 ∷ 116 ∷ []

pub record Server (Cache : Type 0) : Type 0 where
  pub ksize : ℕ
  pub alpha : ℕ
  pub shared : KademliaProtocol Cache
  pub listening : Bool

-- The calls of the router that are made while a lookup runs: by its calls of peers, which remove
-- those that do not answer, and by `welcome_if_new`, in the tasks that the answers spawn.
pub data RouterCall : Type 0 where
  removes : Node → RouterCall
  searches : ℕ → Node → RouterCall
  adds : ℕ → Node → RouterCall

unfoldable pub route : RoutingTable → RouterCall → Outcome RoutingTable
route t (removes peer) = remove_contact t peer
route t (searches now target) = and_then (neighbors_of now t target none) (λ r. done r.0)
route t (adds now node) = and_then (add_contact 129 now t node) (λ r. done r.0)

unfoldable pub route_all : RoutingTable → List RouterCall → Outcome RoutingTable
route_all t [] = done t
route_all t (c ∷ cs) = and_then (route t c) (λ t'. route_all t' cs)

-- What the server does not decide. `router_calls` are those of a lookup from a table, in the order in
-- which they take the router's lock.
pub record World : Type 0 where
  pub digest : Bytes → Bytes
  pub parses : Bytes × ℕ → Bool
  pub answer : Bytes × ℕ → RpcMessage → Option RpcMessage
  pub order : Answers → Answers
  pub order_counts : List (Bytes × ℕ) → List (Bytes × ℕ)
  pub fuel : ℕ
  pub router_calls : RoutingTable → List RouterCall

unfoldable pub with_router : {Cache : Type 0} → Server Cache → RoutingTable → Server Cache
with_router s t = record s { shared = record s.shared { router = t } }

unfoldable pub with_shared : {Cache : Type 0} → Server Cache → KademliaProtocol Cache → Server Cache
with_shared s p = record s { shared = p }

-- The server once the calls of a lookup and their tasks are through.
unfoldable pub settled : {Cache : Type 0} → World → Server Cache → Outcome (Server Cache)
unfolding with_router
settled world s =
    and_then (route_all s.shared.router (world.router_calls s.shared.router))
      (λ t. done (with_router s t))

-- The response that a lookup is given by a call.
unfoldable pub response_of : {Cache : Type 0} → Outcome (Called Cache Findings) → RawResponse
response_of (done r) = r.1.0
response_of panic = no_response.0
response_of out_of_fuel = no_response.0

unfoldable pub finished : {A : Type 0} → Option A → Outcome A
finished none = out_of_fuel
finished (some a) = done a

abbrev pub is_empty : {A : Type 0} → List A → Bool
is_empty [] = true
is_empty (x ∷ xs) = false

module _ {Cache : Type 0} (world : World) where
  abbrev pub value_response : KademliaProtocol Cache → Node → Node → RawResponse
  value_response p target peer =
      response_of (call_find_value world.parses world.answer p peer target)

  abbrev pub node_response : KademliaProtocol Cache → Node → Node → RawResponse
  node_response p target peer = response_of (call_find_node world.parses world.answer p peer target)

  -- The end of `ValueSpiderCrawl::find`: the value that it found is stored on the peer that it chose.
  unfoldable pub store_found :
      Server Cache → Node → ValueResult → Outcome (Server Cache × (Option Bytes × List Node))
  unfolding with_shared
  store_found s target (hit none cached_on) = done (s, (none, []))
  store_found s target (hit (some v) none) = done (s, (some v, []))
  store_found s target (hit (some v) (some peer)) =
      and_then (call_store_rpc world.parses world.answer s.shared peer target.id v)
        (λ stored. done (with_shared s stored.0, (some v, [])))
  store_found s target (miss ns) = done (s, (none, ns))

  -- The two lookups, from the nodes that the router lists.
  unfoldable pub crawl_value :
      Server Cache → Node → List Node → Outcome (Server Cache × (Option Bytes × List Node))
  unfolding finished settled store_found
  crawl_value s target nearest =
      and_then
        (finished (
          value_find (value_response s.shared target) world.order world.order_counts world.fuel
            (new_value target nearest s.ksize s.alpha)))
        (λ ended. and_then (settled world s) (λ s'. store_found s' target ended))

  unfoldable pub crawl_nodes : Server Cache → Node → List Node → Outcome (Server Cache × List Node)
  unfolding finished settled
  crawl_nodes s target nearest =
      and_then
        (finished (
          node_find (node_response s.shared target) world.order world.fuel
            (new target nearest s.ksize s.alpha)))
        (λ ns. and_then (settled world s) (λ s'. done (s', ns)))

  module _ (ops : CacheOps Cache) (handler : SignatureVerifierHandler) where
    unfoldable pub check_value : Bytes → Bytes → Bool
    check_value key value =
        if same_id key status_list_key
        then unwrap_or_false (handler.handle_issuer_node_signature_verification value)
        else unwrap_or_false (handler.handle_signature_verification value)

    -- Behind the cache's answer.
    unfoldable pub check_value_and_cache : Cache → Bytes → Bytes → Option Bool → Cache × Bool
    check_value_and_cache c key value (some cached) = (c, cached)
    check_value_and_cache c key value none =
        let result = check_value key value in
        (if result then ops.insert_by_key c (ops.compute_key value) result else c, result)

    unfoldable pub verify_value_with : Option Cache → Bytes → Bytes → Option Cache × Bool
    unfolding check_value_and_cache
    verify_value_with none key value = (none, check_value key value)
    verify_value_with (some c) key value =
        let r = check_value_and_cache c key value (ops.get_by_key c (ops.compute_key value)) in
        (some r.0, r.1)

    unfoldable pub verify_value : Server Cache → Bytes → Bytes → Server Cache × Bool
    verify_value s key value =
        let r = verify_value_with s.shared.sig_cache key value in
        (record s { shared = record s.shared { sig_cache = r.0 } }, r.1)

    -- A value, if it is verified.
    unfoldable pub if_verified : Server Cache → Bytes → Option Bytes → Server Cache × Option Bytes
    if_verified s key none = (s, none)
    if_verified s key (some value) =
        let v = verify_value s key value in (v.0, if v.1 then some value else none)

    unfoldable pub get_from_network :
        Server Cache → ℕ → Bytes → Outcome (Server Cache × Option Bytes)
    unfolding crawl_value if_verified
    get_from_network s now key =
        let target = from_id (world.digest key) in
        and_then (neighbors_of now s.shared.router target none) (λ nearest.
          let s' = with_router s nearest.0 in
          if is_empty nearest.1
          then done (s', none)
          else and_then (crawl_value s' target nearest.1)
              (λ found. done (if_verified found.0 key found.1.0)))

    unfoldable pub get : Server Cache → ℕ → Bytes → Outcome (Server Cache × Option Bytes)
    unfolding get_from_network
    get s now key = elim (Storage.get s.shared.storage now (world.digest key)) [
      | some result ↦ done (if_verified s key (some result))
      | none ↦ if s.listening then get_from_network s now key else done (s, none)
    ]

    -- The end of `check_exists_and_get_nodes`.
    unfoldable pub exists_if_verified :
        Server Cache → Bytes → Option Bytes × List Node → Server Cache × (Bool × List Node)
    exists_if_verified s key (none, nodes) = (s, (false, nodes))
    exists_if_verified s key (some value, nodes) =
        let v = verify_value s key value in (v.0, if v.1 then (true, []) else (false, nodes))

    unfoldable pub exists_in_network :
        Server Cache → ℕ → Bytes → Outcome (Server Cache × (Bool × List Node))
    unfolding exists_if_verified
    exists_in_network s now key =
        let target = from_id (world.digest key) in
        and_then (neighbors_of now s.shared.router target none) (λ nearest.
          let s' = with_router s nearest.0 in
          if is_empty nearest.1
          then done (s', (false, []))
          else and_then (crawl_value s' target nearest.1)
              (λ found. done (exists_if_verified found.0 key found.1)))

    unfoldable pub check_exists_and_get_nodes :
        Server Cache → ℕ → Bytes → Outcome (Server Cache × (Bool × List Node))
    unfolding exists_in_network
    check_exists_and_get_nodes s now key =
        elim (Storage.get s.shared.storage now (world.digest key)) [
          | some _ ↦ done (s, (true, []))
          | none ↦ if s.listening then exists_in_network s now key else done (s, (false, []))
        ]
