-- ===== src/Kernel/Authorization/Origin.antt =====
-- What the proof of a row's origin shows
-- (services/security_kernel/authorization.py and approval.py).
use pactra.Base.{
  ⊤, ℕ, Text, ◌≡◌, refl, sym, ◌⊎◌, inl, inr, true, ◌||◌, Option, none, some, [], ◌∷◌, arith, ◌==◌,
  is_some, Bool-cases, Option-cases, if◌then◌else◌, String,
}
use pactra.Domain.{Failure, ReasonCode}
use pactra.Action.{Result, ok, raised}
use pactra.Kernel.Transaction.{
  Crypto, Characters, CanonicalValue, canonical_message, approval_domain,
}
use pactra.Kernel.Approval.{
  policy_auto, user_ed25519, scheme_eq, Challenge, decode_lowercase_hex, configured_key,
  trusted_demo_public_key, approval_message, verify_user_ed25519_signature, signature_hex_length,
  ◌>>=◌,
}
use pactra.Kernel.Authorization.Rows.{AuthorizationRow}
use pactra.Kernel.Authorization.Proof.{
  verify_supplied_user_proof, verify_durable_proof, verify_origin,
}
use pactra.Kernel.Authorization.Ruling.{scheme_eq_sound}

-- The configured approver has signed the challenge of a row.
pub record Signed (c : Crypto) (row : AuthorizationRow) : Type 0 where
  pub key_id : row.signing_key_id ≡ some c.approver_key_id
  pub signature : Characters
  pub stored : row.approval_signature ≡ some signature
  pub encoded : Characters
  pub configured : c.approver_public_key ≡ some encoded
  pub key : Text
  pub loaded : c.load_public_key encoded ≡ some key
  pub accepted :
      c.verifies key signature (
        canonical_message c approval_domain (
          ("authorization_id", CanonicalValue.s row.authorization_id)
          ∷ ("mission_id", CanonicalValue.s row.mission_id)
          ∷ ("binding_version", CanonicalValue.s row.binding_version)
          ∷ ("transaction_digest", CanonicalValue.s row.transaction_digest)
          ∷ ("signing_key_id", CanonicalValue.s c.approver_key_id)
          ∷ []))
      ≡ true

-- A row of the policy's scheme carries no proof, one of the user's scheme a signature.
abbrev pub Originates : Crypto → AuthorizationRow → Type 0
Originates c row =
    ((row.approval_scheme ≡ policy_auto)
      × (row.signing_key_id ≡ none)
      × (row.approval_signature ≡ none))
    ⊎ ((row.approval_scheme ≡ user_ed25519) × Signed c row)

-- A key that is trusted is the configured one, loaded.
record Trusted (c : Crypto) (id key : Text) : Type 0 where
  named : id ≡ c.approver_key_id
  encoded : Characters
  configured : c.approver_public_key ≡ some encoded
  loaded : c.load_public_key encoded ≡ some key

configured_key-loads :
    (c : Crypto) (encoded : Characters) {key : Text}
    → configured_key c (some encoded) ≡ ok key
    → c.load_public_key encoded ≡ some key
unfolding configured_key
configured_key-loads c encoded h = ground arith

trusted_demo_public_key-Trusted :
    (c : Crypto) (id : Text) {key : Text} → trusted_demo_public_key c id ≡ ok key → Trusted c id key
unfolding trusted_demo_public_key
trusted_demo_public_key-Trusted c id h = elim (Bool-cases (id == c.approver_key_id)) [
  | inr other ↦ absurd (cc (rw (trusted_demo_public_key, other) at h))
  | inl same ↦ elim (Option-cases c.approver_public_key) [
    | inl nothing ↦ absurd (ground (arith, same, nothing))
    | inr (encoded, there) ↦ record {
      named = ground arith;
      encoded = encoded;
      configured = there;
      loaded = configured_key-loads c encoded (rw (trusted_demo_public_key, same, there) at h);
    }
  ]
]

bind_ok :
    {A B : Type 0} (m : Result A) (f : A → Result B) {r : B}
    → m >>= f ≡ ok r
    → (a : A) × (m ≡ ok a) × (f a ≡ ok r)
bind_ok (ok a) f h = (a, refl, h)
bind_ok (raised e) f h = absurd (cc)

decode_lowercase_hex_ok :
    (value : Characters) (k : ℕ) {r : Characters} → decode_lowercase_hex value k ≡ ok r → value ≡ r
unfolding decode_lowercase_hex
decode_lowercase_hex_ok value k h = ground arith

approval_message_ok :
    (c : Crypto) (ch : Challenge) {m : String}
    → approval_message c ch ≡ ok m
    → m
      ≡ canonical_message c approval_domain (
          ("authorization_id", CanonicalValue.s ch.authorization_id)
          ∷ ("mission_id", CanonicalValue.s ch.mission_id)
          ∷ ("binding_version", CanonicalValue.s ch.binding_version)
          ∷ ("transaction_digest", CanonicalValue.s ch.transaction_digest)
          ∷ ("signing_key_id", CanonicalValue.s ch.signing_key_id)
          ∷ [])
unfolding approval_message
approval_message_ok c ch h =
    elim (Bool-cases ((ch.binding_version == 0) || (ch.signing_key_id == 0))) [
      | inl bad ↦ absurd (cc (rw (approval_message, bad) at h))
      | inr good ↦ sym (cc (rw (approval_message, good) at h))
    ]

verify_supplied_user_proof-Signed :
    (c : Crypto) (row : AuthorizationRow) (key : Text) (signature : Characters)
    → row.signing_key_id ≡ some key
    → row.approval_signature ≡ some signature
    → verify_supplied_user_proof c row key signature ≡ ok tt
    → Signed c row
unfolding verify_supplied_user_proof verify_user_ed25519_signature
verify_supplied_user_proof-Signed c row key signature by stored h =
    let ch : Challenge = record {
      authorization_id = row.authorization_id;
      mission_id = row.mission_id;
      binding_version = row.binding_version;
      transaction_digest = row.transaction_digest;
      signing_key_id = key;
    } in
    let verdict : Text → Characters → String → Result ⊤ = λ public_key decoded message.
      if c.verifies public_key decoded message
      then ok tt
      else raised (Failure.proof_failure ReasonCode.authorization_signature_invalid) in
    let (decoded, d, h1) =
      bind_ok (decode_lowercase_hex signature signature_hex_length)
        (λ g. trusted_demo_public_key c key >>= λ k. approval_message c ch >>= verdict k g) h in
    let (public, p, h2) =
      bind_ok (trusted_demo_public_key c key) (λ k. approval_message c ch >>= verdict k decoded)
        h1 in
    let (message, m, h3) = bind_ok (approval_message c ch) (verdict public decoded) h2 in
    let trust = trusted_demo_public_key-Trusted c key p in
    let name = trust.named in
    let whole = decode_lowercase_hex_ok signature signature_hex_length d in
    let text = approval_message_ok c ch m in
    let accepts : c.verifies public decoded message ≡ true = ground (arith, h3) in
    record {
      key_id = rw (← name) by;
      signature = signature;
      stored = stored;
      encoded = trust.encoded;
      configured = trust.configured;
      key = public;
      loaded = trust.loaded;
      accepted = rw (← name, ← text, whole) accepts;
    }

verify_durable_proof-Signed :
    (c : Crypto) (row : AuthorizationRow) (k : Option Text) (g : Option Characters)
    → row.signing_key_id ≡ k
    → row.approval_signature ≡ g
    → verify_durable_proof c row k g ≡ ok tt
    → Signed c row
unfolding verify_durable_proof
verify_durable_proof-Signed c row none g e f h = absurd (cc)
verify_durable_proof-Signed c row (some k) none e f h = absurd (cc)
verify_durable_proof-Signed c row (some k) (some g) e f h =
    verify_supplied_user_proof-Signed c row k g e f h

pub verify_origin-Originates :
    (c : Crypto) (row : AuthorizationRow) → verify_origin c row ≡ ok tt → Originates c row
unfolding verify_origin
verify_origin-Originates c row h = elim (Bool-cases (scheme_eq row.approval_scheme policy_auto)) [
  | inl auto ↦ elim (Bool-cases (is_some row.signing_key_id || is_some row.approval_signature)) [
    | inl proof ↦ absurd (cc (rw (verify_origin, auto, proof) at h))
    | inr bare ↦
        inl (scheme_eq_sound row.approval_scheme policy_auto auto, ground arith, ground arith)
  ]
  | inr other ↦ elim (Bool-cases (scheme_eq row.approval_scheme user_ed25519)) [
    | inr legacy ↦ absurd (cc (rw (verify_origin, other, legacy) at h))
    | inl user ↦ inr (
      scheme_eq_sound row.approval_scheme user_ed25519 user,
      verify_durable_proof-Signed c row row.signing_key_id row.approval_signature refl refl
          (rw (verify_origin, other, user) at h),
    )
  ]
]
