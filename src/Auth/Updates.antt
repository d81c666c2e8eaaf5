-- ===== src/Auth/Updates.antt =====
-- The request `rpc_update` under `DIDSignatureVerifierHandler`: whose updates a node stores.
use auth_kademlia.Prelude.{ℕ, ◌≡◌, inl, inr, Option, some}
use auth_kademlia.Prelude.Bytes.{Bytes}
use auth_kademlia.Storage
use auth_kademlia.Protocol.{CacheOps, KademliaProtocol, rpc_update}
use auth_kademlia.Protocol.Guard.{Guarded, rpc_update-Guarded}
use auth_kademlia.Auth.{Schemes, did_handler}
use auth_kademlia.Auth.Records.{Rotates, verify_key_rotation-Rotates}

module _ (schemes : Schemes) (json_x base64_decode : Bytes → Option Bytes)
    (issuer_key : Option Bytes) {Cache : Type 0} (ops : CacheOps Cache) (status_key : Bytes) where
  -- With `DIDSignatureVerifierHandler`, `rpc_update` replaces the value of a key only where the key
  -- reads as an old record whose document has a key under which the signature for the new record is
  -- valid, and the new record is signed by itself; otherwise it refuses and the store stays.
  pub rpc_update-Rotates :
      (p : KademliaProtocol Cache) (now : ℕ) (sender_id : Bytes) (addr : Bytes × ℕ)
      (key value auth_signature : Bytes)
      → Guarded p.storage
          ((old : Bytes) × (Storage.get p.storage now key ≡ some old)
            × Rotates schemes json_x base64_decode issuer_key value old auth_signature)
          (Storage.set p.storage now key value)
          (rpc_update ops
            (did_handler schemes json_x base64_decode issuer_key)
            status_key
            p
            now
            sender_id
            addr
            key
            value
            auth_signature)
  unfolding did_handler
  rpc_update-Rotates p now sender_id addr key value auth_signature =
      elim (rpc_update-Guarded ops (did_handler schemes json_x base64_decode issuer_key) status_key
        p now sender_id addr key value auth_signature) [
          | inl refused ↦ inl refused
          | inr (ok, stored, (old, read, accepted)) ↦ inr (
            ok,
            stored,
            (
              old,
              read,
              verify_key_rotation-Rotates schemes json_x base64_decode issuer_key value old
                  auth_signature accepted,
            ),
          )
        ]
