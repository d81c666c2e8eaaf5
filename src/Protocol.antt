-- ===== src/Protocol.antt =====
-- src/protocol.rs: the request handlers that write, and `verify_for_key`. A handler is one step from
-- the state before it to the state after it, with the tasks `welcome_if_new` that it spawns. The
-- signature cache (a third-party cache under SHA-256 keys), SHA-1 and the signature handler are
-- parameters; an `Err` of the handler is `none`, which the code reads as false.
pub mod Guard
pub mod Cache
pub mod Chain
pub mod Message
pub mod Welcome
pub mod Welcomed
pub mod Replicated
pub mod Refresh
pub mod Requests
pub mod Dispatched
pub mod Calls
pub mod Called
pub mod Pending
pub mod Delivery
pub mod Fixtures
mod Tests
mod CallTests
use auth_kademlia.Prelude.{
  ℕ, ◌+◌, ◌%◌, ◌^◌, Bool, true, false, Option, none, some, List, [], ◌∷◌, leb, if◌then◌else◌,
}
use mathlib.Core.Option
use auth_kademlia.Prelude.Assoc
use auth_kademlia.Prelude.Bytes.{Bytes, bytes_eq}
use auth_kademlia.Node
use auth_kademlia.Node.{Node, same_id}
use auth_kademlia.Routing.Table.{RoutingTable, Outcome, done, panic, out_of_fuel, remove_contact}
use auth_kademlia.Storage
use auth_kademlia.Storage.{ForgetfulStorage, insert_if_absent}

-- The trait of src/auth_handler.rs.
pub record SignatureVerifierHandler : Type 0 where
  pub handle_signature_verification : Bytes → Option Bool
  pub handle_update_verification : Bytes → Bytes → Bytes → Option Bool
  pub handle_signature_delete_operation : Bytes → Bytes → Bytes → Option Bool
  pub handle_issuer_node_signature_verification : Bytes → Option Bool

-- The cache: its contents, its keys and its two operations.
pub record CacheOps (Cache : Type 0) : Type 0 where
  pub compute_key : Bytes → Bytes
  pub get_by_key : Cache → Bytes → Option Bool
  pub insert_by_key : Cache → Bytes → Bool → Cache

pub record KademliaProtocol (Cache : Type 0) : Type 0 where
  pub router : RoutingTable
  pub storage : ForgetfulStorage
  pub source_node : Node
  pub sig_cache : Option Cache
  pub invalid_sig_strikes : List (Bytes × ℕ)

abbrev pub invalid_sig_ban_threshold : ℕ
invalid_sig_ban_threshold = 3

-- The state after a handler, the nodes that it hands to `welcome_if_new`, and its answer.
pub record Reply (Cache : Type 0) : Type 0 where
  pub after : KademliaProtocol Cache
  pub welcomes : List Node
  pub ok : Bool

abbrev pub unwrap_or_false : Option Bool → Bool
unwrap_or_false r = Option.get_or r false

abbrev pub source_of : Bytes → Bytes × ℕ → Node
source_of sender_id addr = Node.new sender_id (some addr.0) (some addr.1)

module _ {Cache : Type 0} (ops : CacheOps Cache) (handler : SignatureVerifierHandler)
    (status_key : Bytes) where
  -- The check itself: the issuer's signature for the status list, else the record's own.
  unfoldable pub check_for_key : Bytes → Bytes → Bool
  check_for_key key value =
      if same_id key status_key
      then unwrap_or_false (handler.handle_issuer_node_signature_verification value)
      else unwrap_or_false (handler.handle_signature_verification value)

  -- Behind a cache miss.
  unfoldable pub check_and_cache : Cache → Bytes → Bytes → Option Bool → Cache × Bool
  check_and_cache c key value (some cached) = (c, cached)
  check_and_cache c key value none =
      let result = check_for_key key value in
      (if result then ops.insert_by_key c (ops.compute_key value) result else c, result)

  unfoldable pub verify_with : Option Cache → Bytes → Bytes → Option Cache × Bool
  unfolding check_and_cache
  verify_with none key value = (none, check_for_key key value)
  verify_with (some c) key value =
      let r = check_and_cache c key value (ops.get_by_key c (ops.compute_key value)) in
      (some r.0, r.1)

  unfoldable pub verify_for_key :
      KademliaProtocol Cache → Bytes → Bytes → KademliaProtocol Cache × Bool
  verify_for_key p key value =
      let r = verify_with p.sig_cache key value in (record p { sig_cache = r.0 }, r.1)

  -- `*entry(sender_id).or_insert(0) += 1` on a `u32`.
  unfoldable pub add_strike : KademliaProtocol Cache → Bytes → KademliaProtocol Cache × ℕ
  add_strike p sender_id =
      let n =
        (Option.get_or (Assoc.find bytes_eq sender_id p.invalid_sig_strikes) 0 + 1) % 2 ^ 32 in
      (record p { invalid_sig_strikes = Assoc.put bytes_eq sender_id n p.invalid_sig_strikes }, n)

  unfoldable pub evict : KademliaProtocol Cache → Outcome RoutingTable → Outcome (Reply Cache)
  evict p (done router) =
      done (record { after = record p { router = router }; welcomes = []; ok = false })
  evict p panic = panic
  evict p out_of_fuel = out_of_fuel

  unfoldable pub reject_store : KademliaProtocol Cache → Bytes → Bytes × ℕ → Outcome (Reply Cache)
  unfolding add_strike evict
  reject_store p sender_id addr =
      let struck = add_strike p sender_id in
      let source = source_of sender_id addr in
      if leb invalid_sig_ban_threshold struck.1
      then evict struck.0 (remove_contact struck.0.router source)
      else done (record { after = struck.0; welcomes = source ∷ []; ok = false })

  unfoldable pub accept_store : KademliaProtocol Cache → ℕ → Node → Bytes → Bytes → Reply Cache
  accept_store p now source key value =
      let inserted = insert_if_absent p.storage now key value in
      if inserted.1
      then record { after = record p { storage = inserted.0 }; welcomes = source ∷ []; ok = true }
      else record { after = record p { storage = inserted.0 }; welcomes = []; ok = false }

  unfoldable pub rpc_store :
      KademliaProtocol Cache → ℕ → Bytes → Bytes × ℕ → Bytes → Bytes → Outcome (Reply Cache)
  unfolding reject_store accept_store
  rpc_store p now sender_id addr key value =
      let verified = verify_for_key p key value in
      if verified.1
      then done (accept_store verified.0 now (source_of sender_id addr) key value)
      else reject_store verified.0 sender_id addr

  -- The end of the three handlers that replace or remove a value.
  unfoldable pub refuse : KademliaProtocol Cache → Reply Cache
  refuse p = record { after = p; welcomes = []; ok = false }

  unfoldable pub commit : KademliaProtocol Cache → Node → ForgetfulStorage → Reply Cache
  commit p source storage = record {
    after = record p { storage = storage };
    welcomes = source ∷ [];
    ok = true;
  }

  -- What the three handlers do with the value that the key reads as: the check, and the new store.
  unfoldable pub write_if :
      KademliaProtocol Cache
      → Node
      → ForgetfulStorage
      → (Bytes → Option Bool)
      → Option Bytes
      → Reply Cache
  unfolding refuse commit
  write_if p source next accepts none = refuse p
  write_if p source next accepts (some old_value) =
      if unwrap_or_false (accepts old_value) then commit p source next else refuse p

  unfoldable pub rpc_update :
      KademliaProtocol Cache → ℕ → Bytes → Bytes × ℕ → Bytes → Bytes → Bytes → Reply Cache
  rpc_update p now sender_id addr key value auth_signature =
      write_if p (source_of sender_id addr) (Storage.set p.storage now key value)
        (λ old_value. handler.handle_update_verification value old_value auth_signature)
        (Storage.get p.storage now key)

  unfoldable pub rpc_update_status_list :
      KademliaProtocol Cache → ℕ → Bytes → Bytes × ℕ → Bytes → Bytes → Reply Cache
  rpc_update_status_list p now sender_id addr key value =
      write_if p (source_of sender_id addr) (Storage.set p.storage now key value)
        (λ _. handler.handle_issuer_node_signature_verification value)
        (Storage.get p.storage now key)

  unfoldable pub rpc_delete :
      KademliaProtocol Cache → ℕ → Bytes → Bytes × ℕ → Bytes → Bytes → Bytes → Reply Cache
  rpc_delete p now sender_id addr key auth_signature delete_msg =
      write_if p (source_of sender_id addr) (Storage.delete p.storage key)
        (λ value. handler.handle_signature_delete_operation value auth_signature delete_msg)
        (Storage.get p.storage now key)

  unfoldable pub rpc_ping : KademliaProtocol Cache → Bytes → Bytes × ℕ → List Node × Bytes
  rpc_ping p sender_id addr = (source_of sender_id addr ∷ [], p.source_node.id)

  unfoldable pub leave_with :
      KademliaProtocol Cache → Outcome RoutingTable → Outcome (KademliaProtocol Cache)
  leave_with p (done router) = done (record p { router = router })
  leave_with p panic = panic
  leave_with p out_of_fuel = out_of_fuel

  unfoldable pub rpc_leave :
      KademliaProtocol Cache → Bytes → Bytes × ℕ → Outcome (KademliaProtocol Cache)
  unfolding leave_with
  rpc_leave p sender_id addr = leave_with p (remove_contact p.router (source_of sender_id addr))
