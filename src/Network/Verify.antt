-- ===== src/Network/Verify.antt =====
-- `Server::verify_value` and `KademliaProtocol::verify_for_key`: one check, under a key and its
-- digest.
use auth_kademlia.Prelude.{
  ◌≡◌, ◌≢◌, refl, sym, ap, subst, Bool, Option, none, some, arith, if◌then◌else◌,
}
use auth_kademlia.Prelude.Bytes.{Bytes, bytes_eq}
use auth_kademlia.Node.{same_id}
use auth_kademlia.Protocol.{
  SignatureVerifierHandler, CacheOps, check_for_key, check_and_cache, verify_with, verify_for_key,
}
use auth_kademlia.Protocol.Cache.{IsCache, Judged, verify_for_key-Judged}
use auth_kademlia.Network.{
  Server, World, status_list_key, check_value, check_value_and_cache, verify_value_with,
  verify_value, with_shared,
}

same_tests : (a b c d : Bytes) → (a ≡ b → c ≡ d) → (c ≡ d → a ≡ b) → same_id a b ≡ same_id c d
same_tests a b c d f g = elim (bytes_eq a b) [
  | yes same ↦ ground (arith, same, f same)
  | no differs ↦ let other : c ≢ d = λ e. differs (g e) in ground (arith, differs, other)
]

module _ {Cache : Type 0} (world : World) (ops : CacheOps Cache)
    (handler : SignatureVerifierHandler) where
  same_check :
      (status_key key_id key value : Bytes)
      → same_id key_id status_key ≡ same_id key status_list_key
      → check_for_key ops handler status_key key_id value ≡ check_value world ops handler key value
  unfolding check_for_key check_value
  same_check status_key key_id key value e = rw e refl

  same_check_and_cache :
      (status_key key_id key value : Bytes) (c : Cache) (o : Option Bool)
      → same_id key_id status_key ≡ same_id key status_list_key
      → check_and_cache ops handler status_key c key_id value o
        ≡ check_value_and_cache world ops handler c key value o
  unfolding check_and_cache check_value_and_cache
  same_check_and_cache status_key key_id key value c (some b) e = refl
  same_check_and_cache status_key key_id key value c none e =
      ap
        (λ result.
          (if result then ops.insert_by_key c (ops.compute_key value) result else c, result))
        (same_check status_key key_id key value e)

  same_verify_with :
      (status_key key_id key value : Bytes) (o : Option Cache)
      → same_id key_id status_key ≡ same_id key status_list_key
      → verify_value_with world ops handler o key value
        ≡ verify_with ops handler status_key o key_id value
  unfolding verify_value_with verify_with
  same_verify_with status_key key_id key value none e =
      ap (λ b. (none, b)) (sym (same_check status_key key_id key value e))
  same_verify_with status_key key_id key value (some c) e =
      ap (λ r. (some r.0, r.1))
        (sym (
          same_check_and_cache status_key key_id key value c
            (ops.get_by_key c (ops.compute_key value)) e))

  same_verify :
      (status_key key_id key value : Bytes) (s : Server Cache)
      → same_id key_id status_key ≡ same_id key status_list_key
      → verify_value world ops handler s key value ≡ (
        with_shared s (verify_for_key ops handler status_key s.shared key_id value).0,
        (verify_for_key ops handler status_key s.shared key_id value).1,
      )
  unfolding verify_value verify_for_key with_shared
  same_verify status_key key_id key value s e =
      ap (λ r. (record s { shared = record s.shared { sig_cache = r.0 } }, r.1))
        (same_verify_with status_key key_id key value s.shared.sig_cache e)

  -- A server verifies a value under a key as its protocol does under the key's digest, with the same
  -- result and the same cache afterwards, if no other key has the digest of the status list's key.
  pub verify_value-verify_for_key :
      (s : Server Cache) (key value : Bytes)
      → (world.digest key ≡ world.digest status_list_key → key ≡ status_list_key)
      → verify_value world ops handler s key value ≡ (
        with_shared s
            (verify_for_key ops handler
              (world.digest status_list_key)
              s.shared
              (world.digest key)
              value).0,
        (verify_for_key ops handler
            (world.digest status_list_key)
            s.shared
            (world.digest key)
            value).1,
      )
  verify_value-verify_for_key s key value unique =
      same_verify (world.digest status_list_key) (world.digest key) key value s (
        same_tests (world.digest key) (world.digest status_list_key) key status_list_key unique
          (ap world.digest))

  -- A server judges a value under a key by the key itself.
  pub verify_value-Judged :
      IsCache ops
      → (s : Server Cache) (key value : Bytes)
      → let r = verify_value world ops handler s key value in
        Judged ops handler status_list_key s.shared.sig_cache key value (r.0.shared.sig_cache, r.1)
  verify_value-Judged laws s key value =
      subst
        (λ r.
          Judged ops handler status_list_key s.shared.sig_cache key value
            (r.0.shared.sig_cache, r.1))
        (sym (same_verify status_list_key key key value s refl))
        (unfold with_shared in
          (verify_for_key-Judged ops handler status_list_key laws s.shared key value).0)
