-- ===== src/Protocol/Guard.antt =====
-- Who may change the store: what each handler does to it, on every path.
use auth_kademlia.Prelude.{
  ℕ, ◌^◌, ◌<◌, ◌≡◌, refl, ap, ◌∙◌, ◌⊎◌, inl, inr, Bool, true, false, Option, none, some, [], ◌∷◌,
  leb, arith, Bool-cases,
}
use auth_kademlia.Prelude.Assoc
use auth_kademlia.Prelude.Bytes.{Bytes, bytes_eq}
use auth_kademlia.Node.{Node}
use auth_kademlia.Routing.Table.{Outcome, done}
use auth_kademlia.Routing.Table.Place.{IsTable}
use auth_kademlia.Routing.Table.Operations.{remove_contact-Keeps}
use auth_kademlia.Storage
use auth_kademlia.Storage.{ForgetfulStorage, Entry, insert_if_absent, insert_entry}
use auth_kademlia.Protocol.{
  SignatureVerifierHandler, CacheOps, KademliaProtocol, Reply, unwrap_or_false, source_of,
  verify_for_key, add_strike, evict, reject_store, accept_store, rpc_store, write_if, rpc_update,
  rpc_update_status_list, rpc_delete, invalid_sig_ban_threshold,
}

-- A reply that refuses and leaves the store alone, or that accepts under `evidence` and stores
-- `next`.
abbrev pub Guarded :
    {Cache : Type 0} → ForgetfulStorage → Type 0 → ForgetfulStorage → Reply Cache → Type 0
Guarded before evidence next r =
    ((r.ok ≡ false) × (r.after.storage ≡ before))
    ⊎ ((r.ok ≡ true) × (r.after.storage ≡ next) × evidence)

pub unwrap_or_false-true : (r : Option Bool) → unwrap_or_false r ≡ true → r ≡ some true
unwrap_or_false-true none h = absurd (ground arith)
unwrap_or_false-true (some b) h = ap some h

module _ {Cache : Type 0} (ops : CacheOps Cache) (handler : SignatureVerifierHandler)
    (status_key : Bytes) where
  -- The value that was there, which the handler was asked about.
  abbrev pub Accepted : (Bytes → Option Bool) → Option Bytes → Type 0
  Accepted accepts o = (old : Bytes) × (o ≡ some old) × (accepts old ≡ some true)

  write_if-Guarded :
      (p : KademliaProtocol Cache) (source : Node) (next : ForgetfulStorage)
      (accepts : Bytes → Option Bool) (o : Option Bytes)
      → Guarded p.storage
          (Accepted accepts o)
          next
          (write_if ops handler status_key p source next accepts o)
  unfolding write_if
  write_if-Guarded p source next accepts none = inl (refl, refl)
  write_if-Guarded p source next accepts (some old) =
      elim (Bool-cases (unwrap_or_false (accepts old))) [
        | inl good ↦
            rw good (inr (refl, refl, (old, refl, unwrap_or_false-true (accepts old) good)))
        | inr bad ↦ rw bad (inl (refl, refl))
      ]

  -- `rpc_update` replaces the value of a key only where the key reads as some old value, and the
  -- handler accepts the new value under the old one; otherwise it refuses and the store stays.
  pub rpc_update-Guarded :
      (p : KademliaProtocol Cache) (now : ℕ) (sender_id : Bytes) (addr : Bytes × ℕ)
      (key value auth_signature : Bytes)
      → Guarded p.storage
          (Accepted
            (λ old. handler.handle_update_verification value old auth_signature)
            (Storage.get p.storage now key))
          (Storage.set p.storage now key value)
          (rpc_update ops handler status_key p now sender_id addr key value auth_signature)
  unfolding rpc_update
  rpc_update-Guarded p now sender_id addr key value auth_signature =
      write_if-Guarded p _ _ (λ old. handler.handle_update_verification value old auth_signature)
        (Storage.get p.storage now key)

  -- `rpc_update_status_list` replaces the value of a key only where the key reads as some value,
  -- and the handler accepts the new value as signed by the issuer; otherwise it refuses and the
  -- store stays.
  pub rpc_update_status_list-Guarded :
      (p : KademliaProtocol Cache) (now : ℕ) (sender_id : Bytes) (addr : Bytes × ℕ)
      (key value : Bytes)
      → Guarded p.storage
          (Accepted
            (λ _. handler.handle_issuer_node_signature_verification value)
            (Storage.get p.storage now key))
          (Storage.set p.storage now key value)
          (rpc_update_status_list ops handler status_key p now sender_id addr key value)
  unfolding rpc_update_status_list
  rpc_update_status_list-Guarded p now sender_id addr key value =
      write_if-Guarded p _ _ (λ _. handler.handle_issuer_node_signature_verification value)
        (Storage.get p.storage now key)

  -- `rpc_delete` removes a key only where the key reads as some value, and the handler accepts the
  -- signature of the request under that value; otherwise it refuses and the store stays.
  pub rpc_delete-Guarded :
      (p : KademliaProtocol Cache) (now : ℕ) (sender_id : Bytes) (addr : Bytes × ℕ)
      (key auth_signature delete_msg : Bytes)
      → Guarded p.storage
          (Accepted
            (λ old. handler.handle_signature_delete_operation old auth_signature delete_msg)
            (Storage.get p.storage now key))
          (Storage.delete p.storage key)
          (rpc_delete ops handler status_key p now sender_id addr key auth_signature delete_msg)
  unfolding rpc_delete
  rpc_delete-Guarded p now sender_id addr key auth_signature delete_msg =
      write_if-Guarded p _ _
        (λ old. handler.handle_signature_delete_operation old auth_signature delete_msg)
        (Storage.get p.storage now key)

  insert_entry-cases :
      (s : ForgetfulStorage) (now : ℕ) (key value : Bytes) (o : Option Entry)
      → (((insert_entry s now key value o).1 ≡ true)
          × ((insert_entry s now key value o).0 ≡ Storage.set s now key value))
        ⊎ (((insert_entry s now key value o).1 ≡ false) × ((insert_entry s now key value o).0 ≡ s))
  unfolding insert_entry
  insert_entry-cases s now key value none = inl (refl, refl)
  insert_entry-cases s now key value (some (old, at)) =
      elim (Bool-cases (Storage.is_expired s now at)) [
        | inl gone ↦ rw gone (inl (refl, refl))
        | inr live ↦ rw live (inr (refl, refl))
      ]

  accept_store-Guarded :
      (p : KademliaProtocol Cache) (now : ℕ) (source : Node) (key value : Bytes)
      → Guarded p.storage Unit
          (Storage.set p.storage now key value)
          (accept_store ops handler status_key p now source key value)
        × ((accept_store ops handler status_key p now source key value).after.router ≡ p.router)
  unfolding accept_store insert_if_absent
  accept_store-Guarded p now source key value =
      elim (insert_entry-cases p.storage now key value (Assoc.find bytes_eq key p.storage.store)) [
        | inl (did, next) ↦ rw did (inr (refl, next, tt), refl)
        | inr (did, same) ↦ rw did (inl (refl, same), refl)
      ]

  -- A call of `rpc_store` that returns `reply`: the router is in order, and the value is stored only
  -- after a successful verification.
  pub record Stored (p : KademliaProtocol Cache) (now : ℕ) (key value : Bytes)
      (o : Outcome (Reply Cache)) : Type 0 where
    pub reply : Reply Cache
    pub result : o ≡ done reply
    pub guarded :
        Guarded p.storage
          ((verify_for_key ops handler status_key p key value).1 ≡ true)
          (Storage.set p.storage now key value)
          reply
    pub router_ok : IsTable reply.after.router

  reject_store-Stored :
      (p q : KademliaProtocol Cache) (now : ℕ) (sender_id : Bytes) (addr : Bytes × ℕ)
      (key value : Bytes)
      → q.router ≡ p.router
      → q.storage ≡ p.storage
      → IsTable p.router
      → (source_of sender_id addr).long_id < 2 ^ 128
      → Stored p now key value (reject_store ops handler status_key q sender_id addr)
  unfolding reject_store add_strike evict
  reject_store-Stored p q now sender_id addr key value same_router same_storage v fits =
      let source = source_of sender_id addr in
      let k = remove_contact-Keeps q.router source (rw same_router v) fits in
      elim (Bool-cases
        (leb invalid_sig_ban_threshold (add_strike ops handler status_key q sender_id).1)) [
          | inl banned ↦ rw banned (record {
            reply = record {
              after = record (add_strike ops handler status_key q sender_id).0 { router = k.value };
              welcomes = [];
              ok = false;
            };
            result =
                ap (evict ops handler status_key (add_strike ops handler status_key q sender_id).0)
                  k.result;
            guarded = inl (refl, same_storage);
            router_ok = k.table_ok;
          })
          | inr spared ↦ rw spared (record {
            reply = record {
              after = (add_strike ops handler status_key q sender_id).0;
              welcomes = source ∷ [];
              ok = false;
            };
            result = refl;
            guarded = inl (refl, same_storage);
            router_ok = rw same_router v;
          })
        ]

  accept_store-Stored :
      (p q : KademliaProtocol Cache) (now : ℕ) (source : Node) (key value : Bytes)
      → q.router ≡ p.router
      → q.storage ≡ p.storage
      → IsTable p.router
      → (verify_for_key ops handler status_key p key value).1 ≡ true
      → Stored p now key value (done (accept_store ops handler status_key q now source key value))
  accept_store-Stored p q now source key value same_router same_storage v verified =
      let (g, router) = accept_store-Guarded q now source key value in
      record {
        reply = accept_store ops handler status_key q now source key value;
        result = refl;
        guarded = elim g [
          | inl (refused, same) ↦ inl (refused, same ∙ same_storage)
          | inr (took, next, _) ↦
              inr (took, next ∙ ap (λ s. Storage.set s now key value) same_storage, verified)
        ];
        router_ok = rw (router, same_router) v;
      }

  -- For a router in order and a sender with a 128-bit `long_id`, `rpc_store` returns with the router
  -- in order. It stores the value only if `verify_for_key` accepts it; otherwise it refuses and the
  -- store stays, also where it strikes the sender out of the router.
  pub rpc_store-Stored :
      (p : KademliaProtocol Cache) (now : ℕ) (sender_id : Bytes) (addr : Bytes × ℕ)
      (key value : Bytes)
      → IsTable p.router
      → (source_of sender_id addr).long_id < 2 ^ 128
      → Stored p now key value (rpc_store ops handler status_key p now sender_id addr key value)
  unfolding rpc_store verify_for_key
  rpc_store-Stored p now sender_id addr key value v fits =
      let q = (verify_for_key ops handler status_key p key value).0 in
      elim (Bool-cases (verify_for_key ops handler status_key p key value).1) [
        | inl verified ↦
            rw (rpc_store, verified)
              (accept_store-Stored p q now (source_of sender_id addr) key value refl refl v
                verified)
        | inr rejected ↦
            rw (rpc_store, rejected)
              (reject_store-Stored p q now sender_id addr key value refl refl v fits)
      ]
