-- ===== src/Network/Published.antt =====
-- `Server::set`, `update` and `delete`: they return, and what they do to the store and for whom.
use mathlib.Core.Option
use auth_kademlia.Prelude.{
  ℕ, ◌≡◌, refl, ap, subst, ◌∙◌, [], ◌⊎◌, inl, inr, Bool, true, not, Option, none, some, List, arith,
}
use auth_kademlia.Prelude.Bytes.{Bytes, bytes_eq}
use auth_kademlia.Node.{Node}
use auth_kademlia.Routing.Table.{Outcome, done}
use auth_kademlia.Routing.Table.Place.{IsTable}
use auth_kademlia.Storage
use auth_kademlia.Storage.{ForgetfulStorage}
use auth_kademlia.Protocol.{SignatureVerifierHandler, CacheOps, unwrap_or_false}
use auth_kademlia.Protocol.Guard.{unwrap_or_false-true}
use auth_kademlia.Protocol.Cache.{IsCache}
use auth_kademlia.Protocol.Chain.{and_then, Returns, Returns-done, Returns-and_then, Returns-if}
use auth_kademlia.Network.{Server, World, get, status_list_key}
use auth_kademlia.Network.Publish.{
  update_digest, delete_digest, some_of, set, is_authenticated, update_from, update, delete_from,
  delete,
}
use auth_kademlia.Network.Lookup.{IsWorld, digest_fits}
use auth_kademlia.Network.Get.{IsServer, VerifiedAt, get-Got}
use auth_kademlia.Network.Copies.{OneOf, Wrote, update_digest-Wrote, delete_digest-Wrote}

-- The end of an operation: a refusal that leaves the store alone, or a write under `evidence`.
pub record Operated {Cache : Type 0} (before next : ForgetfulStorage) (evidence : Type 0)
    (r : Server Cache × Option Bool) : Type 0 where
  pub router_ok : IsTable r.0.shared.router
  pub outcome :
      ((r.1 ≡ none) × (r.0.shared.storage ≡ before))
      ⊎ ((ok : Bool) × (r.1 ≡ some ok) × OneOf before next r.0.shared.storage × evidence)

-- The value that `get` finds under a key, verified under the key.
abbrev pub FoundUnder :
    {Cache : Type 0}
    → World
    → CacheOps Cache
    → SignatureVerifierHandler
    → Server Cache
    → ℕ
    → Bytes
    → Bytes
    → Type 0
FoundUnder {Cache} world ops handler s now key old =
    ((after : Server Cache) × (get world ops handler s now key ≡ done (after, some old)))
    × VerifiedAt ops handler s key old

-- The handler accepts the new value: as the issuer's for the status list without a signature, and
-- otherwise under the old value.
abbrev pub Authentic : SignatureVerifierHandler → Bytes → Bytes → Bytes → Option Bytes → Type 0
Authentic handler key value old auth =
    (((key ≡ status_list_key) × (auth ≡ none))
      × (handler.handle_issuer_node_signature_verification value ≡ some true))
    ⊎ ((((key ≡ status_list_key) × (auth ≡ none)) → ⊥)
        × (handler.handle_update_verification value old (Option.get_or auth []) ≡ some true))

-- What an update needs of the old value, and a deletion.
abbrev pub MayUpdate :
    (Bytes → Type 0) → SignatureVerifierHandler → Bytes → Bytes → Option Bytes → Type 0
MayUpdate Old handler key value auth =
    (old : Bytes) × Old old × Authentic handler key value old auth

abbrev pub MayDelete : (Bytes → Type 0) → SignatureVerifierHandler → Bytes → Bytes → Type 0
MayDelete Old handler sig msg =
    (old : Bytes) × Old old × (handler.handle_signature_delete_operation old sig msg ≡ some true)

is_authenticated-Authentic :
    (handler : SignatureVerifierHandler) (key value old : Bytes) (auth : Option Bytes)
    → is_authenticated handler key value old auth ≡ true
    → Authentic handler key value old auth
unfolding is_authenticated
is_authenticated-Authentic handler key value old (some sig) h =
    inr ((λ e. absurd (ground (arith, e.1))), unwrap_or_false-true _ (ground arith))
is_authenticated-Authentic handler key value old none h = elim (bytes_eq key status_list_key) [
  | yes status ↦ inl ((status, refl), unwrap_or_false-true _ (ground (arith, status)))
  | no other ↦ inr ((λ e. other e.0), unwrap_or_false-true _ (ground (arith, other)))
]

-- A call that returns, with the equation that it does.
with_result :
    {A : Type 0} (P : A → Type 0) (o : Outcome A)
    → Returns P o
    → Returns (λ a. P a × (o ≡ done a)) o
with_result P o r = record { value = r.value; result = r.result; holds = (r.holds, r.result) }

module _ {Cache : Type 0} (us : List Bytes) (world : World) (laws : IsWorld Cache us world)
    (ops : CacheOps Cache) (handler : SignatureVerifierHandler) (cache_laws : IsCache ops) where
  some_of-Operated :
      (before next : ForgetfulStorage) (evidence : Type 0) (o : Outcome (Server Cache × Bool))
      → evidence
      → Returns (Wrote before next) o
      → Returns (Operated before next evidence) (and_then o (λ r. done (some_of world r)))
  unfolding some_of
  some_of-Operated before next evidence o e w = Returns-and_then _ _ _ _ w (λ r (table_ok, one).
      Returns-done _ _ (record { router_ok = table_ok; outcome = inr (r.1, refl, one, e) }))

  -- A refusal.
  refused :
      (before next : ForgetfulStorage) (evidence : Type 0) (s : Server Cache)
      → IsTable s.shared.router
      → s.shared.storage ≡ before
      → Returns (Operated before next evidence) (done (s, none))
  refused before next evidence s v same =
      Returns-done _ _ (record { router_ok = v; outcome = inl (refl, same) })

  update_from-Operated :
      (s : Server Cache) (before : ForgetfulStorage) (now : ℕ) (key value : Bytes)
      (auth : Option Bytes) (o : Option Bytes) (Old : Bytes → Type 0)
      → IsServer us ops handler s
      → s.shared.storage ≡ before
      → ((old : Bytes) → o ≡ some old → Old old)
      → Returns
          (Operated before
            (Storage.set before now (world.digest key) value)
            (MayUpdate Old handler key value auth))
          (update_from world ops handler s now key value auth o)
  unfolding update_from
  update_from-Operated s before now key value auth none Old v same t =
      refused _ _ _ s v.ready.table_ok same
  update_from-Operated s before now key value auth (some old) Old v same t =
      Returns-if _ (not (is_authenticated handler key value old auth)) _ _
        (λ _. refused _ _ _ s v.ready.table_ok same)
        (λ good.
          some_of-Operated before _ _ _
            (old, t old refl, is_authenticated-Authentic handler key value old auth (ground arith))
            (subst
              (λ b.
                Returns (Wrote b (Storage.set b now (world.digest key) value))
                  (update_digest world s now key (world.digest key) value auth))
              same
              (update_digest-Wrote us world laws ops handler cache_laws s now key (world.digest key)
                value auth v (digest_fits us world laws key))))

  -- For a server in order in a network of known peers, where each call that a lookup makes of the
  -- router can be made, and with a cache that gives back what was inserted and tells values apart,
  -- `update` returns. It answers with a result, and may store the new value, only if `get` finds an
  -- old value under the key, which is verified under the key, and the handler accepts the new value
  -- under this old one, or as the issuer's for the status list without a signature; otherwise it
  -- answers none and the store stays.
  pub update-Operated :
      (s : Server Cache) (now : ℕ) (key value : Bytes) (auth : Option Bytes)
      → IsServer us ops handler s
      → Returns
          (Operated s.shared.storage
            (Storage.set s.shared.storage now (world.digest key) value)
            (MayUpdate (FoundUnder world ops handler s now key) handler key value auth))
          (update world ops handler s now key value auth)
  unfolding update
  update-Operated s now key value auth v =
      Returns-and_then _ _ _ _
        (with_result _ _ (get-Got us world laws ops handler cache_laws s now key v))
        (λ r (g, e).
          update_from-Operated r.0 s.shared.storage now key value auth r.1
            (FoundUnder world ops handler s now key) g.reads.server_ok g.reads.same_storage
            (λ old h. ((r.0, e ∙ ap (λ o. done (r.0, o)) h), g.verified old h)))

  delete_from-Operated :
      (s : Server Cache) (before : ForgetfulStorage) (now : ℕ) (key sig msg : Bytes)
      (o : Option Bytes) (Old : Bytes → Type 0)
      → IsServer us ops handler s
      → s.shared.storage ≡ before
      → ((old : Bytes) → o ≡ some old → Old old)
      → Returns
          (Operated before
            (Storage.delete before (world.digest key))
            (MayDelete Old handler sig msg))
          (delete_from world ops handler s now key sig msg o)
  unfolding delete_from
  delete_from-Operated s before now key sig msg none Old v same t =
      refused _ _ _ s v.ready.table_ok same
  delete_from-Operated s before now key sig msg (some old) Old v same t =
      Returns-if _ (not (unwrap_or_false (handler.handle_signature_delete_operation old sig msg))) _
        _ (λ _. refused _ _ _ s v.ready.table_ok same)
        (λ good.
          some_of-Operated before _ _ _ (old, t old refl, unwrap_or_false-true _ (ground arith))
            (subst
              (λ b.
                Returns (Wrote b (Storage.delete b (world.digest key)))
                  (delete_digest world s now (world.digest key) sig msg))
              same
              (delete_digest-Wrote us world laws ops handler cache_laws s now (world.digest key) sig
                msg v (digest_fits us world laws key))))

  -- For a server in order in a network of known peers, where each call that a lookup makes of the
  -- router can be made, and with a cache that gives back what was inserted and tells values apart,
  -- `delete` returns. It answers with a result, and may remove the record of the key from the
  -- store, only if `get` finds a value under the key, which is verified under the key, and the
  -- handler accepts the signature of the message under this value; otherwise it answers none and
  -- the store stays.
  pub delete-Operated :
      (s : Server Cache) (now : ℕ) (key sig msg : Bytes)
      → IsServer us ops handler s
      → Returns
          (Operated s.shared.storage
            (Storage.delete s.shared.storage (world.digest key))
            (MayDelete (FoundUnder world ops handler s now key) handler sig msg))
          (delete world ops handler s now key sig msg)
  unfolding delete
  delete-Operated s now key sig msg v =
      Returns-and_then _ _ _ _
        (with_result _ _ (get-Got us world laws ops handler cache_laws s now key v))
        (λ r (g, e).
          delete_from-Operated r.0 s.shared.storage now key sig msg r.1
            (FoundUnder world ops handler s now key) g.reads.server_ok g.reads.same_storage
            (λ old h. ((r.0, e ∙ ap (λ o. done (r.0, o)) h), g.verified old h)))
