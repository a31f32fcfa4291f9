-- ===== src/Kernel/Approval.antt =====
-- The user's approval proof (services/security_kernel/approval.py, packages/schemas/approval.py).
-- A digest that reaches this code has been compared with an output of SHA-256, so the test of its
-- shape in `approval_message` is left out.
use pactra.Base.{
  ⊤, ℕ, Text, Bool, true, not, ◌&&◌, ◌||◌, Option, none, some, [], ◌∷◌, String, ◌==◌, leb, length,
  if◌then◌else◌,
}
use pactra.Domain.{Failure, ReasonCode}
use pactra.Action.{Result, ok, raised}
use pactra.Kernel.Transaction.{Crypto, Characters, s, approval_domain, canonical_message}

pub data ApprovalScheme : Type 0 where
  policy_auto user_ed25519 legacy_server : ApprovalScheme

abbrev pub scheme_index : ApprovalScheme → ℕ
scheme_index policy_auto = 0
scheme_index user_ed25519 = 1
scheme_index legacy_server = 2

abbrev pub scheme_eq : ApprovalScheme → ApprovalScheme → Bool
scheme_eq a b = scheme_index a == scheme_index b

abbrev pub scheme_word : ApprovalScheme → String
scheme_word policy_auto = "POLICY_AUTO"
scheme_word user_ed25519 = "USER_ED25519"
scheme_word legacy_server = "LEGACY_SERVER"

abbrev pub signature_hex_length : ℕ
signature_hex_length = 128

abbrev pub public_key_hex_length : ℕ
public_key_hex_length = 64

-- What a proof commits to.
pub record Challenge : Type 0 where
  pub authorization_id : Text
  pub mission_id : Text
  pub binding_version : Text
  pub transaction_digest : Text
  pub signing_key_id : Text

unfoldable pub is_lower_hex : ℕ → Bool
is_lower_hex c = (leb b'0' c && leb c b'9') || (leb b'a' c && leb c b'f')

unfoldable pub all_lower_hex : Characters → Bool
unfolding is_lower_hex
all_lower_hex [] = true
all_lower_hex (c ∷ cs) = is_lower_hex c && all_lower_hex cs

-- The three refusals of the decoder carry one reason code; the bytes are read from the characters
-- by the verifier.
unfoldable pub decode_lowercase_hex : Characters → ℕ → Result Characters
unfolding all_lower_hex
decode_lowercase_hex value n =
    if (length value == n) && all_lower_hex value
    then ok value
    else raised (Failure.proof_failure ReasonCode.authorization_signature_malformed)

abbrev key_unknown {ℓ} : {A : Type ℓ} → Result A
key_unknown = raised (Failure.proof_failure ReasonCode.authorization_signing_key_unknown)

abbrev loaded_key : Option Text → Result Text
loaded_key none = key_unknown
loaded_key (some key) = ok key

unfoldable pub configured_key : Crypto → Option Characters → Result Text
unfolding all_lower_hex
configured_key c none = key_unknown
configured_key c (some encoded) =
    if (length encoded == public_key_hex_length) && all_lower_hex encoded
    then loaded_key (c.load_public_key encoded)
    else key_unknown

unfoldable pub trusted_demo_public_key : Crypto → Text → Result Text
unfolding configured_key
trusted_demo_public_key c signing_key_id =
    if not (signing_key_id == c.approver_key_id)
    then key_unknown
    else configured_key c c.approver_public_key

-- An empty text is 0.
unfoldable pub approval_message : Crypto → Challenge → Result String
unfolding canonical_message
approval_message c ch =
    if (ch.binding_version == 0) || (ch.signing_key_id == 0)
    then raised Failure.invariant_violation
    else ok (
        canonical_message c approval_domain (
          ("authorization_id", s ch.authorization_id)
          ∷ ("mission_id", s ch.mission_id)
          ∷ ("binding_version", s ch.binding_version)
          ∷ ("transaction_digest", s ch.transaction_digest)
          ∷ ("signing_key_id", s ch.signing_key_id)
          ∷ []))

infixl 5 ◌>>=◌ ◌>>◌
abbrev pub ◌>>=◌ : {A B : Type 0} → Result A → (A → Result B) → Result B
ok a >>= f = f a
raised e >>= f = raised e

abbrev pub ◌>>◌ : {A B : Type 0} → Result A → Result B → Result B
m >> k = m >>= λ _. k

unfoldable pub verify_user_ed25519_signature : Crypto → Challenge → Characters → Result ⊤
unfolding decode_lowercase_hex trusted_demo_public_key approval_message
verify_user_ed25519_signature c ch signature_hex = do
  signature ← decode_lowercase_hex signature_hex signature_hex_length
  public_key ← trusted_demo_public_key c ch.signing_key_id
  message ← approval_message c ch
  if c.verifies public_key signature message
      then ok tt
      else raised (Failure.proof_failure ReasonCode.authorization_signature_invalid)
