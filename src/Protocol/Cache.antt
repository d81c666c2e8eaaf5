-- ===== src/Protocol/Cache.antt =====
-- What a verification that the shared signature cache answers is worth.
use auth_kademlia.Prelude.{
  ◌≡◌, refl, sym, ap, subst, ◌∙◌, ◌⊎◌, inl, inr, Bool, true, false, Option, none, some, arith,
  Bool-cases,
}
use auth_kademlia.Prelude.Bytes.{Bytes, bytes_eq}
use auth_kademlia.Protocol.{
  SignatureVerifierHandler, CacheOps, KademliaProtocol, check_for_key, check_and_cache, verify_with,
  verify_for_key,
}
use auth_kademlia.Protocol.Guard.{unwrap_or_false-true}

-- Some verifier accepts the value: as signed by itself, or by the issuer.
abbrev pub Trusted : SignatureVerifierHandler → Bytes → Type 0
Trusted handler value =
    (handler.handle_signature_verification value ≡ some true)
    ⊎ (handler.handle_issuer_node_signature_verification value ≡ some true)

-- The cache answers `true` only for such values; no cache is sound as well.
pub record IsSound {Cache : Type 0} (ops : CacheOps Cache) (handler : SignatureVerifierHandler)
    (c : Cache) : Type 0 where
  pub trusted : (v : Bytes) → ops.get_by_key c (ops.compute_key v) ≡ some true → Trusted handler v

abbrev pub AllSound :
    {Cache : Type 0} → CacheOps Cache → SignatureVerifierHandler → Option Cache → Type 0
AllSound ops handler none = Unit
AllSound ops handler (some c) = IsSound ops handler c

-- A key stands for one value, and a read gives what was inserted for the key or was there before.
pub record IsCache {Cache : Type 0} (ops : CacheOps Cache) : Type 0 where
  pub same_value : (v w : Bytes) → ops.compute_key v ≡ ops.compute_key w → v ≡ w
  pub reads_back :
      (c : Cache) (k q : Bytes) (r b : Bool)
      → ops.get_by_key (ops.insert_by_key c k r) q ≡ some b
      → ((q ≡ k) × (b ≡ r)) ⊎ (ops.get_by_key c q ≡ some b)

-- The check of the key accepts the value: the issuer's for the key of the status list, and for
-- another key that of the value's own signature.
abbrev pub AcceptedFor : SignatureVerifierHandler → Bytes → Bytes → Bytes → Type 0
AcceptedFor handler status_key key value =
    ((key ≡ status_key) × (handler.handle_issuer_node_signature_verification value ≡ some true))
    ⊎ ((key ≡ status_key → ⊥) × (handler.handle_signature_verification value ≡ some true))

-- The cache has this result for the value.
abbrev pub Held : {Cache : Type 0} → CacheOps Cache → Option Cache → Bytes → Bool → Type 0
Held ops none v b = ⊥
Held ops (some c) v b = ops.get_by_key c (ops.compute_key v) ≡ some b

-- The value is accepted under the key, or was accepted before, as the cache has it.
abbrev pub Verified :
    {Cache : Type 0}
    → CacheOps Cache
    → SignatureVerifierHandler
    → Bytes
    → Option Cache
    → Bytes
    → Bytes
    → Type 0
Verified ops handler status_key o key value =
    AcceptedFor handler status_key key value ⊎ Held ops o value true

AcceptedFor-Trusted :
    (handler : SignatureVerifierHandler) (status_key key value : Bytes)
    → AcceptedFor handler status_key key value
    → Trusted handler value
AcceptedFor-Trusted handler status_key key value (inl (_, h)) = inr h
AcceptedFor-Trusted handler status_key key value (inr (_, h)) = inl h

-- A result and the cache after it. A value is refused only where its check refuses it or the cache
-- has it as refused, and the cache then has no value as accepted that was not verified so.
pub record Judged {Cache : Type 0} (ops : CacheOps Cache) (handler : SignatureVerifierHandler)
    (status_key : Bytes) (o : Option Cache) (key value : Bytes) (r : Option Cache × Bool)
    : Type 0 where
  pub accepted : r.1 ≡ true → Verified ops handler status_key o key value
  pub refused : r.1 ≡ false → AcceptedFor handler status_key key value → Held ops o value false
  pub held : (w : Bytes) → Held ops r.0 w true → Verified ops handler status_key o key w
  pub sound : AllSound ops handler o → AllSound ops handler r.0

module _ {Cache : Type 0} (ops : CacheOps Cache) (handler : SignatureVerifierHandler)
    (status_key : Bytes) (laws : IsCache ops) where
  check-accepted :
      (key value : Bytes)
      → check_for_key ops handler status_key key value ≡ true
      → AcceptedFor handler status_key key value
  unfolding check_for_key
  check-accepted key value h = elim (bytes_eq key status_key) [
    | yes status ↦ inl (status, unwrap_or_false-true _ (ground (arith, status)))
    | no other ↦ inr (other, unwrap_or_false-true _ (ground (arith, other)))
  ]

  check-refused :
      (key value : Bytes)
      → check_for_key ops handler status_key key value ≡ false
      → AcceptedFor handler status_key key value
      → ⊥
  unfolding check_for_key
  check-refused key value h (inl (status, e)) = ground (arith, status, e)
  check-refused key value h (inr (other, e)) = ground (arith, other, e)

  insert-Held :
      (c : Cache) (key value : Bytes)
      → AcceptedFor handler status_key key value
      → (w : Bytes) → Held ops (some (ops.insert_by_key c (ops.compute_key value) true)) w true
      → Verified ops handler status_key (some c) key w
  insert-Held c key value good w h =
      elim (laws.reads_back c (ops.compute_key value) (ops.compute_key w) true true h) [
        | inl (same, _) ↦
            inl
              (subst (AcceptedFor handler status_key key) (sym (laws.same_value w value same)) good)
        | inr before ↦ inr before
      ]

  Verified-IsSound :
      (c d : Cache) (key : Bytes)
      → ((w : Bytes) → Held ops (some d) w true → Verified ops handler status_key (some c) key w)
      → IsSound ops handler c
      → IsSound ops handler d
  Verified-IsSound c d key from v = record {
    trusted = λ w h. elim (from w h) [
      | inl good ↦ AcceptedFor-Trusted handler status_key key w good
      | inr before ↦ v.trusted w before
    ];
  }

  check_and_cache-Judged :
      (c : Cache) (key value : Bytes) (o : Option Bool)
      → ops.get_by_key c (ops.compute_key value) ≡ o
      → let r = check_and_cache ops handler status_key c key value o in
        Judged ops handler status_key (some c) key value (some r.0, r.1)
  unfolding check_and_cache
  check_and_cache-Judged c key value (some b) h = record {
    accepted = λ e. inr (h ∙ ap some e);
    refused = λ e _. h ∙ ap some e;
    held = λ w e. inr e;
    sound = λ v. v;
  }
  check_and_cache-Judged c key value none h =
      elim (Bool-cases (check_for_key ops handler status_key key value)) [
        | inl good ↦
            let a = check-accepted key value good in
            let from = insert-Held c key value a in
            rw good (record {
              accepted = λ _. inl a;
              refused = λ e. absurd (ground arith);
              held = from;
              sound = Verified-IsSound c _ key from;
            })
        | inr bad ↦ rw bad (record {
          accepted = λ e. absurd (ground arith);
          refused = λ _ a. absurd (check-refused key value bad a);
          held = λ w e. inr e;
          sound = λ v. v;
        })
      ]

  pub verify_with-Judged :
      (o : Option Cache) (key value : Bytes)
      → Judged ops handler status_key o key value (verify_with ops handler status_key o key value)
  unfolding verify_with
  verify_with-Judged (some c) key value =
      check_and_cache-Judged c key value (ops.get_by_key c (ops.compute_key value)) refl
  verify_with-Judged none key value = record {
    accepted = λ e. inl (check-accepted key value e);
    refused = λ e a. absurd (check-refused key value e a);
    held = λ w e. absurd e;
    sound = λ v. v;
  }

  -- With a cache under whose keys a value stands alone, and which gives back what was inserted,
  -- `verify_for_key` accepts a value only if the check that belongs to the key accepts it, the
  -- issuer's for the status list and the value's own signature for any other key, or if the cache
  -- has it as accepted. It refuses a value that this check accepts only if the cache has it as
  -- refused. Nothing but the cache changes, which has no further value as accepted than this check
  -- accepts, and which stays sound.
  pub verify_for_key-Judged :
      (p : KademliaProtocol Cache) (key value : Bytes)
      → let r = verify_for_key ops handler status_key p key value in
        Judged ops handler status_key p.sig_cache key value (r.0.sig_cache, r.1)
        × (r.0 ≡ record p { sig_cache = r.0.sig_cache })
  unfolding verify_for_key
  verify_for_key-Judged p key value = (verify_with-Judged p.sig_cache key value, refl)
