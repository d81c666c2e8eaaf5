-- ===== src/Auth/Tests.antt =====
-- Algorithm strings, and a record of each of them.
use auth_kademlia.Prelude.{
  Option, length, arith, ◌≡◌, refl, some, none, [], ◌∷◌, ◌++◌, replicate, position, true,
}
use auth_kademlia.Storage
use auth_kademlia.Protocol.{rpc_update}
use auth_kademlia.Protocol.Guard.{Guarded}
use auth_kademlia.Protocol.Fixtures.{list_cache, key, status, peer}
use auth_kademlia.Auth.Records.{IsAlgorithm, laid_out, Rotates, verify_self_signed-laid_out}
use auth_kademlia.Auth.Updates.{rpc_update-Rotates}
use auth_kademlia.Auth.{
  Schemes, ed25519, ed25519_name, did_handler, verify, verify_self_signed, public_key_from_did_doc,
  resolve_alg_and_length, dilithium, rsa, get_alg_string, dilithium_name, rsa_name,
}
use mathlib.Core.Option
use auth_kademlia.Prelude.Bytes.{Bytes, bytes_eq}
use auth_kademlia.Auth.Text.{trim, parse_u8, is_utf8, before_dash, after_dash, trim_end_matches}

level_three : resolve_alg_and_length (dilithium_name ++ 45 ∷ 51 ∷ []) ≡ some (dilithium, 3293)
unfolding resolve_alg_and_length bytes_eq trim before_dash after_dash Option.bind parse_u8
level_three = refl

spaced : resolve_alg_and_length (32 ∷ 194 ∷ 160 ∷ rsa_name ++ 9 ∷ []) ≡ some (rsa, 256)
unfolding resolve_alg_and_length bytes_eq trim before_dash after_dash Option.bind parse_u8
spaced = refl

plain_dilithium : resolve_alg_and_length dilithium_name ≡ none
unfolding resolve_alg_and_length bytes_eq trim before_dash after_dash Option.bind parse_u8
plain_dilithium = refl

padded : get_alg_string (rsa_name ++ replicate 9 0) ≡ some rsa_name
unfolding get_alg_string is_utf8 position
padded = refl

-- Schemes that accept every signature, documents whose key is 32 bytes of one.
abbrev schemes : Schemes
schemes = record {
  from_public_key_der = λ k. some k;
  from_public_key_pem = λ k. none;
  verify_rsa = λ k s m. some true;
  verify_ed25519 = λ k s m. some true;
  verify_d2 = λ k s m. some true;
  verify_d3 = λ k s m. some true;
  verify_d5 = λ k s m. some true;
}

abbrev document_key : Bytes → Option Bytes
document_key doc = some (replicate 32 1)

abbrev decode : Bytes → Option Bytes
decode text = some text

abbrev signature : Bytes
signature = replicate 64 7

ed25519-IsAlgorithm : IsAlgorithm ed25519_name
unfolding is_utf8
ed25519-IsAlgorithm = record {
  short = omega arith;
  text = refl;
  no_zero = (refl, (refl, (refl, (refl, (refl, (refl, (refl, tt)))))));
}

ed25519_resolved : resolve_alg_and_length ed25519_name ≡ some (ed25519, length signature)
unfolding resolve_alg_and_length bytes_eq trim before_dash after_dash Option.bind parse_u8
ed25519_resolved = refl

key_read :
    public_key_from_did_doc schemes document_key decode none (123 ∷ []) ≡ some (replicate 32 1)
unfolding public_key_from_did_doc Option.bind trim_end_matches
key_read = refl

verify_self_signed-laid_out_example :
    verify_self_signed schemes document_key decode none (laid_out ed25519_name signature (123 ∷ []))
    ≡ verify schemes ed25519 (replicate 32 1) signature (123 ∷ [])
verify_self_signed-laid_out_example =
    verify_self_signed-laid_out schemes document_key decode none ed25519_name signature (123 ∷ [])
      (replicate 32 1) ed25519 ed25519-IsAlgorithm ed25519_resolved key_read

rpc_update-Rotates_example :
    Guarded peer.storage
      ((old : Bytes) × (Storage.get peer.storage 5 key ≡ some old)
        × Rotates schemes document_key decode none (1 ∷ 2 ∷ []) old [])
      (Storage.set peer.storage 5 key (1 ∷ 2 ∷ []))
      (rpc_update list_cache
        (did_handler schemes document_key decode none)
        status
        peer
        5
        (replicate 20 0)
        ([], 80)
        key
        (1 ∷ 2 ∷ [])
        [])
rpc_update-Rotates_example =
    rpc_update-Rotates schemes document_key decode none list_cache status peer 5 (replicate 20 0)
      ([], 80) key (1 ∷ 2 ∷ []) []
