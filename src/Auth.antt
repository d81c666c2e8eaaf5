-- ===== src/Auth.antt =====
-- src/auth_handler.rs and src/crypto: how a record is read and which verifier judges it. A `str` is
-- its bytes, and an `Err` is `none`, since the callers read it as false. The signature schemes, the
-- JSON field of a DID document, base64 and the issuer's key file are parameters.
pub mod Text
pub mod Records
pub mod Updates
mod Tests
use auth_kademlia.Prelude.{
  ℕ, ◌+◌, Bool, true, false, not, Option, none, some, List, [], ◌∷◌, length, take, drop, position,
  ltb, ◌==◌, if◌then◌else◌,
}
use mathlib.Core.Option
use auth_kademlia.Prelude.Bytes.{Bytes}
use auth_kademlia.Node.{same_id}
use auth_kademlia.Protocol.{SignatureVerifierHandler}
use auth_kademlia.Auth.Text.{is_utf8, trim, parse_u8, before_dash, after_dash, trim_end_matches}

-- "RSA", "Ed25519" and "Dilithium".
abbrev pub rsa_name : Bytes
rsa_name = 82 ∷ 83 ∷ 65 ∷ []

abbrev pub ed25519_name : Bytes
ed25519_name = 69 ∷ 100 ∷ 50 ∷ 53 ∷ 53 ∷ 49 ∷ 57 ∷ []

abbrev pub dilithium_name : Bytes
dilithium_name = 68 ∷ 105 ∷ 108 ∷ 105 ∷ 116 ∷ 104 ∷ 105 ∷ 117 ∷ 109 ∷ []

-- The three verifiers that the factory knows.
pub data Verifier : Type 0 where
  rsa : Verifier
  ed25519 : Verifier
  dilithium : Verifier

-- The third-party schemes, each for a public key, a signature and a message: `none` where the library
-- cannot read one of them. An RSA key is read from DER or from PEM text first.
pub record Schemes : Type 0 where
  pub from_public_key_der : Bytes → Option Bytes
  pub from_public_key_pem : Bytes → Option Bytes
  pub verify_rsa : Bytes → Bytes → Bytes → Option Bool
  pub verify_ed25519 : Bytes → Bytes → Bytes → Option Bool
  pub verify_d2 : Bytes → Bytes → Bytes → Option Bool
  pub verify_d3 : Bytes → Bytes → Bytes → Option Bool
  pub verify_d5 : Bytes → Bytes → Bytes → Option Bool

unfoldable pub dilithium_length : ℕ → Option ℕ
dilithium_length level =
    if level == 2
    then some 2420
    else if level == 3
    then some 3293
    else if level == 5
    then some 4595
    else none

unfoldable pub dilithium_level : Option Bytes → Option ℕ
dilithium_level none = none
dilithium_level (some text) = parse_u8 (trim text)

-- The verifier and the length of its signatures.
unfoldable pub resolve_alg_and_length : Bytes → Option (Verifier × ℕ)
unfolding dilithium_length dilithium_level
resolve_alg_and_length algorithm =
    let alg = trim (before_dash algorithm) in
    if same_id alg rsa_name
    then some (rsa, 256)
    else if same_id alg ed25519_name
    then some (ed25519, 64)
    else if same_id alg dilithium_name
    then Option.bind (dilithium_level (after_dash algorithm))
        (λ level. Option.map (λ n. (dilithium, n)) (dilithium_length level))
    else none

unfoldable pub get_verifier : Bytes → Option Verifier
get_verifier algorithm =
    let base = trim (before_dash algorithm) in
    if same_id base rsa_name
    then some rsa
    else if same_id base ed25519_name
    then some ed25519
    else if same_id base dilithium_name
    then some dilithium
    else none

unfoldable pub dilithium_level_from_pubkey_len : ℕ → Option ℕ
dilithium_level_from_pubkey_len len =
    if len == 1312
    then some 2
    else if len == 1952
    then some 3
    else if len == 2592
    then some 5
    else none

module _ (schemes : Schemes) where
  -- The Dilithium scheme of a level.
  unfoldable pub verify_at : Bytes → Bytes → Bytes → ℕ → Option Bool
  verify_at key signature message level =
      if level == 2
      then schemes.verify_d2 key signature message
      else if level == 3
      then schemes.verify_d3 key signature message
      else schemes.verify_d5 key signature message

  unfoldable pub load_public_key : Bytes → Option Bytes
  load_public_key key = elim (schemes.from_public_key_der key) [
    | some pk ↦ some pk
    | none ↦ if is_utf8 key then schemes.from_public_key_pem key else none
  ]

  unfoldable pub verify : Verifier → Bytes → Bytes → Bytes → Option Bool
  unfolding dilithium_level_from_pubkey_len verify_at load_public_key
  verify rsa key signature message =
      Option.bind (load_public_key key) (λ pk. schemes.verify_rsa pk signature message)
  verify ed25519 key signature message =
      if not (length key == 32)
      then none
      else if not (length signature == 64)
      then none
      else schemes.verify_ed25519 key signature message
  verify dilithium key signature message =
      Option.bind (dilithium_level_from_pubkey_len (length key)) (verify_at key signature message)

unfoldable pub get_alg_string : Bytes → Option Bytes
get_alg_string value =
    if ltb (length value) 12
    then none
    else let raw = take 12 value in
      let text = take (Option.get_or (position (λ b. b == 0) raw) (length raw)) raw in
      if is_utf8 text then some text else none

unfoldable pub extract_sig_and_data : Bytes → ℕ → Option (Bytes × Bytes)
extract_sig_and_data value sig_length =
    let data_start = 12 + sig_length in
    if ltb (length value) data_start
    then none
    else some (drop 12 (take data_start value), drop data_start value)

-- A record's algorithm, verifier, signature and data.
pub record Parsed : Type 0 where
  pub alg : Bytes
  pub signature : Bytes
  pub body : Bytes

unfoldable pub parse_record : Bytes → Option Parsed
unfolding get_alg_string extract_sig_and_data resolve_alg_and_length
parse_record value = Option.bind (get_alg_string value) (λ alg.
    Option.bind (resolve_alg_and_length alg) (λ resolved.
      Option.map (λ parts. record { alg = alg; signature = parts.0; body = parts.1 })
        (extract_sig_and_data value resolved.1)))

-- `json_x` reads `verificationMethod[0].publicKeyJwk.x` of a document, `base64_decode` is the decoder
-- without padding, and `issuer_key` is what reading the issuer's key file gives.
module _ (schemes : Schemes) (json_x base64_decode : Bytes → Option Bytes)
    (issuer_key : Option Bytes) where
  unfoldable pub decode_b64url : Bytes → Option Bytes
  decode_b64url key = base64_decode (trim_end_matches 61 key)

  unfoldable pub public_key_from_did_doc : Bytes → Option Bytes
  unfolding decode_b64url
  public_key_from_did_doc doc = Option.bind (json_x doc) decode_b64url

  -- The end of each check: the verifier of the algorithm, for a key.
  unfoldable pub judge : Bytes → Option Bytes → Bytes → Bytes → Option Bool
  unfolding get_verifier verify
  judge alg key signature message = Option.bind key (λ k.
      Option.bind (get_verifier alg) (λ verifier. verify schemes verifier k signature message))

  unfoldable pub verify_self_signed : Bytes → Option Bool
  unfolding parse_record public_key_from_did_doc judge
  verify_self_signed value =
      Option.bind (parse_record value)
        (λ r. judge r.alg (public_key_from_did_doc r.body) r.signature r.body)

  unfoldable pub verify_key_rotation : Bytes → Bytes → Bytes → Option Bool
  unfolding verify_self_signed
  verify_key_rotation new_value old_value auth_signature =
      Option.bind (parse_record old_value) (λ old.
        Option.bind (judge old.alg (public_key_from_did_doc old.body) auth_signature new_value)
          (λ ok. if not ok then some false else verify_self_signed new_value))

  unfoldable pub verify_deletion : Bytes → Bytes → Bytes → Option Bool
  verify_deletion value auth_signature delete_msg =
      Option.bind (parse_record value)
        (λ r. judge r.alg (public_key_from_did_doc r.body) auth_signature delete_msg)

  unfoldable pub verify_issuer : Bytes → Option Bool
  verify_issuer value =
      Option.bind (parse_record value) (λ r. judge r.alg issuer_key r.signature r.body)

  unfoldable pub did_handler : SignatureVerifierHandler
  unfolding verify_key_rotation verify_deletion verify_issuer
  did_handler = record {
    handle_signature_verification = verify_self_signed;
    handle_update_verification = verify_key_rotation;
    handle_signature_delete_operation = verify_deletion;
    handle_issuer_node_signature_verification = verify_issuer;
  }
