-- ===== src/Auth/Records.antt =====
-- Records as `DIDSignatureVerifierHandler` reads them, and what it accepts.
use mathlib.Core.List.{append_assoc}
use mathlib.Core.Option
use auth_kademlia.Prelude.{
  ℕ, zero, suc, ◌+◌, ◌-◌, ◌≤◌, ◌≡◌, refl, sym, ap, ◌∙◌, Bool, true, false, not, Option, none, some,
  [], ◌∷◌, ◌++◌, length, take, drop, replicate, position, All, arith, ltb, ◌==◌, if◌then◌else◌,
  length-append, take-append_length, drop-append_length,
}
use auth_kademlia.Prelude.Bytes.{Bytes}
use auth_kademlia.Node.{same_id}
use auth_kademlia.Auth.Text.{is_utf8, trim, before_dash, after_dash}
use auth_kademlia.Auth.{
  Verifier, rsa, ed25519, dilithium, Schemes, resolve_alg_and_length, get_verifier,
  dilithium_length, dilithium_level, get_alg_string, extract_sig_and_data, Parsed, parse_record,
  verify, public_key_from_did_doc, judge, verify_self_signed, verify_key_rotation, rsa_name,
  ed25519_name, dilithium_name,
}

-- The field of an algorithm: its text with zero bytes up to 12.
unfoldable pub padded : Bytes → Bytes
padded alg = alg ++ replicate (12 - length alg) 0

cut_at : Option ℕ → Bytes → Bytes
cut_at o raw = take (Option.get_or o (length raw)) raw

cut : Bytes → Bytes
cut raw = cut_at (position (λ b. b == 0) raw) raw

cut_later :
    (b : ℕ) (bs : Bytes) (o : Option ℕ) → cut_at (Option.map suc o) (b ∷ bs) ≡ b ∷ cut_at o bs
unfolding cut_at
cut_later b bs none = refl
cut_later b bs (some i) = refl

cut_first : (b : ℕ) (bs : Bytes) → (b == 0) ≡ false → cut (b ∷ bs) ≡ b ∷ cut bs
unfolding cut position
cut_first b bs h =
    let later : position (λ x. x == 0) (b ∷ bs) ≡ Option.map suc (position (λ x. x == 0) bs) =
      rw (h, position) refl in
    ap (λ o. cut_at o (b ∷ bs)) later ∙ cut_later b bs (position (λ x. x == 0) bs)

cut_zeros : (k : ℕ) → cut (replicate k 0) ≡ []
unfolding cut cut_at position
cut_zeros zero = refl
cut_zeros (suc k) = refl

cut_padded :
    (alg : Bytes) (k : ℕ) → All (λ b. (b == 0) ≡ false) alg → cut (alg ++ replicate k 0) ≡ alg
cut_padded [] k h = cut_zeros k
cut_padded (b ∷ alg) k h =
    cut_first b (alg ++ replicate k 0) h.0 ∙ ap (◌∷◌ b) (cut_padded alg k h.1)

length-zeros : (k : ℕ) → length {A = ℕ} (replicate k 0) ≡ k
length-zeros zero = refl
length-zeros (suc k) = omega (arith, length-zeros k)

-- The text of an algorithm that fits its field.
pub record IsAlgorithm (alg : Bytes) : Type 0 where
  pub short : length alg ≤ 12
  pub text : is_utf8 alg ≡ true
  pub no_zero : All (λ b. (b == 0) ≡ false) alg

length-padded : (alg : Bytes) → IsAlgorithm alg → length (padded alg) ≡ 12
unfolding padded
length-padded alg v = omega (
  arith,
  length-append alg (replicate (12 - length alg) 0),
  length-zeros (12 - length alg),
  v.short,
)

text_of : Bytes → Option Bytes
text_of raw = if is_utf8 (cut raw) then some (cut raw) else none

get_alg_string-padded :
    (alg rest : Bytes) → IsAlgorithm alg → get_alg_string (padded alg ++ rest) ≡ some alg
unfolding get_alg_string padded text_of cut cut_at
get_alg_string-padded alg rest v =
    let size = length-padded alg v in
    let long : ltb (length (padded alg ++ rest)) 12 ≡ false =
      ground (arith, length-append (padded alg) rest, size) in
    let first : take 12 (padded alg ++ rest) ≡ padded alg =
      take-append_length (padded alg) rest 12 (sym size) in
    rw (long, get_alg_string)
      (ap text_of first
        ∙ ap (λ t. if is_utf8 t then some t else none) (cut_padded alg (12 - length alg) v.no_zero)
        ∙ rw v.text refl)

extract-padded :
    (alg sig body : Bytes)
    → IsAlgorithm alg
    → extract_sig_and_data (padded alg ++ (sig ++ body)) (length sig) ≡ some (sig, body)
unfolding extract_sig_and_data
extract-padded alg sig body v =
    let size = length-padded alg v in
    let whole = append_assoc (padded alg) sig body in
    let end : 12 + length sig ≡ length (padded alg ++ sig) =
      omega (arith, length-append (padded alg) sig, size) in
    let long : ltb (length (padded alg ++ (sig ++ body))) (12 + length sig) ≡ false =
      ground (arith, length-append (padded alg) (sig ++ body), length-append sig body, size) in
    rw (long, extract_sig_and_data)
      (ap (λ w. some (drop 12 (take (12 + length sig) w), drop (12 + length sig) w)) (sym whole)
        ∙ ap (λ w. some (drop 12 w, drop (12 + length sig) (padded alg ++ sig ++ body)))
            (take-append_length (padded alg ++ sig) body (12 + length sig) end)
        ∙ ap (λ w. some (drop 12 (padded alg ++ sig), w))
            (drop-append_length (padded alg ++ sig) body (12 + length sig) end)
        ∙ ap (λ w. some (w, body)) (drop-append_length (padded alg) sig 12 (sym size)))

-- A record laid out as documented: the padded algorithm, the signature, the document.
unfoldable pub laid_out : Bytes → Bytes → Bytes → Bytes
laid_out alg sig body = padded alg ++ (sig ++ body)

parse_record-laid_out :
    (alg sig body : Bytes) (v : Verifier)
    → IsAlgorithm alg
    → resolve_alg_and_length alg ≡ some (v, length sig)
    → parse_record (laid_out alg sig body)
      ≡ some (record { alg = alg; signature = sig; body = body })
unfolding parse_record laid_out Option.bind
parse_record-laid_out alg sig body v a resolved =
    rw
      (
        get_alg_string-padded alg (sig ++ body) a,
        parse_record,
        resolved,
        extract-padded alg sig body a,
      )
      refl

abbrev sized : Verifier → ℕ → Option (Verifier × ℕ)
sized v n = some (v, n)

abbrev Answer : Verifier → ℕ → Option Verifier → Type 0
Answer v n o = (o ≡ some v) × (64 ≤ n) × (n ≤ 4595)

answer :
    (w v : Verifier) (m n : ℕ) → 64 ≤ m → m ≤ 4595 → sized w m ≡ sized v n → Answer v n (some w)
answer w v m n low high h =
    let verifier_of : Option (Verifier × ℕ) → Verifier = λ o. (Option.get_or o (w, m)).0 in
    let length_of : Option (Verifier × ℕ) → ℕ = λ o. (Option.get_or o (w, m)).1 in
    (
      ap (λ o. some (verifier_of o)) h,
      omega (arith, low, ap length_of h),
      omega (arith, high, ap length_of h),
    )

dilithium_answer :
    (v : Verifier) (n level : ℕ)
    → Option.map {B = Verifier × ℕ} (λ m. (dilithium, m)) (dilithium_length level) ≡ sized v n
    → Answer v n (some dilithium)
unfolding dilithium_length
dilithium_answer v n level = by_level (level == 2) (level == 3) (level == 5)
  where
    by_level :
        (two three five : Bool)
        → Option.map {B = Verifier × ℕ}
            (λ m. (dilithium, m))
            (if two
              then some 2420
              else if three
              then some 3293
              else if five
              then some 4595
              else none)
          ≡ sized v n
        → Answer v n (some dilithium)
    by_level true three five h = answer dilithium v 2420 n (omega arith) (omega arith) h
    by_level false true five h = answer dilithium v 3293 n (omega arith) (omega arith) h
    by_level false false true h = answer dilithium v 4595 n (omega arith) (omega arith) h
    by_level false false false h = absurd (ground (arith, h))

by_name :
    (v : Verifier) (n : ℕ) (first second third : Bool) (o : Option ℕ)
    → (if first
        then sized rsa 256
        else if second
        then sized ed25519 64
        else if third
        then Option.bind o
            (λ level. Option.map {B = Verifier × ℕ} (λ m. (dilithium, m)) (dilithium_length level))
        else none)
      ≡ sized v n
    → Answer v n (
        if first
        then some rsa
        else if second
        then some ed25519
        else if third
        then some dilithium
        else none)
unfolding Option.bind
by_name v n true second third o h = answer rsa v 256 n (omega arith) (omega arith) h
by_name v n false true third o h = answer ed25519 v 64 n (omega arith) (omega arith) h
by_name v n false false true none h = absurd (ground (arith, h))
by_name v n false false true (some level) h = dilithium_answer v n level h
by_name v n false false false o h = absurd (ground (arith, h))

-- An algorithm whose signature length is known has the verifier of the same scheme, and signatures of
-- 64 to 4595 bytes.
pub resolve-get_verifier :
    (alg : Bytes) (v : Verifier) (n : ℕ)
    → resolve_alg_and_length alg ≡ some (v, n)
    → (get_verifier alg ≡ some v) × (64 ≤ n) × (n ≤ 4595)
unfolding resolve_alg_and_length get_verifier
resolve-get_verifier alg v n h =
    let name = trim (before_dash alg) in
    by_name v n (same_id name rsa_name) (same_id name ed25519_name) (same_id name dilithium_name)
      (dilithium_level (after_dash alg)) h

module _ (schemes : Schemes) (json_x base64_decode : Bytes → Option Bytes)
    (issuer_key : Option Bytes) where
  -- A record laid out as documented, for an algorithm with signatures of this length, is judged by
  -- the scheme of its algorithm, under the key in its document, on its own signature and document.
  pub verify_self_signed-laid_out :
      (alg sig body key : Bytes) (v : Verifier)
      → IsAlgorithm alg
      → resolve_alg_and_length alg ≡ some (v, length sig)
      → public_key_from_did_doc schemes json_x base64_decode issuer_key body ≡ some key
      → verify_self_signed schemes json_x base64_decode issuer_key (laid_out alg sig body)
        ≡ verify schemes v key sig body
  unfolding verify_self_signed judge Option.bind
  verify_self_signed-laid_out alg sig body key v a resolved found =
      rw
        (
          parse_record-laid_out alg sig body v a resolved,
          verify_self_signed,
          found,
          (resolve-get_verifier alg v (length sig) resolved).0,
        )
        refl

  -- What an accepted update rests on: a verifier accepts the signature for the new record under the
  -- key in the old one's document, and the new record as signed by itself.
  pub record Rotates (value old_value auth_signature : Bytes) : Type 0 where
    pub old : Parsed
    pub key : Bytes
    pub verifier : Verifier
    pub parsed : parse_record old_value ≡ some old
    pub key_found :
        public_key_from_did_doc schemes json_x base64_decode issuer_key old.body ≡ some key
    pub scheme : get_verifier old.alg ≡ some verifier
    pub signed : verify schemes verifier key auth_signature value ≡ some true
    pub self_signed : verify_self_signed schemes json_x base64_decode issuer_key value ≡ some true

  bind_some :
      {A B : Type 0} (o : Option A) (f : A → Option B) (b : B)
      → Option.bind o f ≡ some b
      → (a : A) × (o ≡ some a) × (f a ≡ some b)
  unfolding Option.bind
  bind_some none f b h = absurd (ground (arith, h))
  bind_some (some a) f b h = (a, refl, h)

  rotation_true :
      (ok : Bool) (o : Option Bool)
      → (if not ok then some false else o) ≡ some true
      → (ok ≡ true) × (o ≡ some true)
  rotation_true true o h = (refl, h)
  rotation_true false o h = absurd (ground (arith, h))

  pub verify_key_rotation-Rotates :
      (value old_value auth_signature : Bytes)
      → verify_key_rotation schemes json_x base64_decode issuer_key value old_value auth_signature
        ≡ some true
      → Rotates value old_value auth_signature
  unfolding verify_key_rotation judge
  verify_key_rotation-Rotates value old_value auth_signature h =
      let (old, parsed, judged) = bind_some _ _ true h in
      let (ok, judgement, rest) = bind_some _ _ true judged in
      let (good, self_signed) = rotation_true ok _ rest in
      let (key, key_found, chosen) = bind_some _ _ ok judgement in
      let (verifier, scheme, signed) = bind_some _ _ ok chosen in
      record {
        old = old;
        key = key;
        verifier = verifier;
        parsed = parsed;
        key_found = key_found;
        scheme = scheme;
        signed = signed ∙ ap some good;
        self_signed = self_signed;
      }
