-- ===== src/Protocol/Fixtures.antt =====
-- A node with one stored record, a handler that accepts records that start with 1, and a cache that
-- is an association list under the records themselves.
use auth_kademlia.Prelude.{
  ◌≡◌, sym, ◌∙◌, ap, inl, inr, Bool, false, none, some, List, [], ◌∷◌, replicate, arith, ◌==◌,
}
use auth_kademlia.Prelude.Assoc
use auth_kademlia.Prelude.Bytes.{Bytes, bytes_eq}
use auth_kademlia.Node.{Node, from_id}
use auth_kademlia.Routing.Table
use auth_kademlia.Storage
use auth_kademlia.Storage.{pos, set, get, delete}
use auth_kademlia.Protocol.{SignatureVerifierHandler, CacheOps, KademliaProtocol}
use auth_kademlia.Protocol.Cache.{IsSound, IsCache}

abbrev pub Cached : Type 0
Cached = List (Bytes × Bool)

abbrev pub list_cache : CacheOps Cached
list_cache = record {
  compute_key = λ v. v;
  get_by_key = λ c k. Assoc.find bytes_eq k c;
  insert_by_key = λ c k r. Assoc.put bytes_eq k r c;
}

abbrev pub starts_with_one : Bytes → Bool
starts_with_one [] = false
starts_with_one (b ∷ bs) = b == 1

abbrev pub by_first_byte : SignatureVerifierHandler
by_first_byte = record {
  handle_signature_verification = λ v. some (starts_with_one v);
  handle_update_verification = λ v old sig. some (starts_with_one v);
  handle_signature_delete_operation = λ v sig msg. some (starts_with_one v);
  handle_issuer_node_signature_verification = λ v. none;
}

abbrev pub key : Bytes
key = replicate 20 7

abbrev pub status : Bytes
status = replicate 20 9

abbrev pub self : Node
self = from_id (replicate 20 0)

abbrev pub peer : KademliaProtocol Cached
peer = record {
  router = Table.new 0 self 20;
  storage = set (Storage.new (pos 60)) 0 key (1 ∷ []);
  source_node = self;
  sig_cache = some [];
  invalid_sig_strikes = [];
}

some-injective : (a b : Bool) → some a ≡ some b → b ≡ a
some-injective a b h = ground arith

pub list_cache-IsCache : IsCache list_cache
list_cache-IsCache = record {
  same_value = λ v w h. h;
  reads_back = λ c k q r b h. elim (bytes_eq q k) [
    | yes same ↦ inl (
      same,
      some-injective r b (
          sym (Assoc.find-put_self bytes_eq k r c)
          ∙ ap (λ x. Assoc.find bytes_eq x (Assoc.put bytes_eq k r c)) (sym same)
          ∙ h),
    )
    | no differs ↦ inr (sym (Assoc.find-put_ne bytes_eq k q r c differs) ∙ h)
  ];
}

pub empty-IsSound : IsSound list_cache by_first_byte []
unfolding Assoc.find
empty-IsSound = record { trusted = λ v h. absurd (ground arith) }
