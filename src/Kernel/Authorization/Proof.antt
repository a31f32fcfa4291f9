-- ===== src/Kernel/Authorization/Proof.antt =====
-- The proof-bearing transitions of services/security_kernel/authorization.py:
-- `rebuild_bound_transaction`, `_require_policy_scheme`, `approve_authorization_with_signature`
-- and `verify_authorization_for_payment`.
use pactra.Base.{
  ⊤, Text, Moment, Bool, false, not, ◌&&◌, ◌||◌, Option, none, some, List, [], ◌∷◌, ◌==◌, ltb, leb,
  is_none, is_some, if◌then◌else◌,
}
use pactra.Domain.{
  Failure, ReasonCode, allow, require_approval, deny, authorization_activated, security_violation,
  Value, opt_text,
}
use pactra.Action.{
  Result, ok, raised, Action, pure, raise, lift, gets, or_raise, raise_if, when, ◌>>=◌, ◌>>◌,
}
use pactra.Kernel.Transaction.{Crypto, BoundTransaction, Characters, binding_version}
use pactra.Kernel.Approval.{
  ApprovalScheme, policy_auto, user_ed25519, scheme_eq, scheme_word, verify_user_ed25519_signature,
}
use pactra.Kernel.Authorization.Rows.{
  AuthorizationRow, AuthorizationStatus, pending, active, status_eq, status_word, PolicyDecisionRow,
  Store, has_id, apply_transition, reload, audit, digests_match, bound_of,
}
use pactra.Kernel.Authorization.Classify.{expire_if_stale, classify_and_raise}

abbrev pub scheme_invalid : Failure
scheme_invalid = Failure.proof_failure ReasonCode.authorization_approval_scheme_invalid

unfoldable pub rebuild_bound_transaction : Crypto → AuthorizationRow → Action Store BoundTransaction
rebuild_bound_transaction c row = do
  let tx = bound_of row
  raise_if (not (digests_match c row.transaction_digest tx)) Failure.invariant_violation
  pure tx

-- `ORDER BY created_at DESC LIMIT 1`; of decisions made at one instant the first is taken.
unfoldable pub latest : Option PolicyDecisionRow → List PolicyDecisionRow → Option PolicyDecisionRow
latest best [] = best
latest none (d ∷ ds) = latest (some d) ds
latest (some b) (d ∷ ds) = latest (some (if ltb b.created_at d.created_at then d else b)) ds

unfoldable pub decisions_for : AuthorizationRow → List PolicyDecisionRow → List PolicyDecisionRow
decisions_for row [] = []
decisions_for row (d ∷ ds) =
    let rest = decisions_for row ds in
    if d.mission_id == row.mission_id && d.policy_version == row.policy_version
    then d ∷ rest
    else rest

-- `schemes_by_decision`
unfoldable pub scheme_for : Option PolicyDecisionRow → Option ApprovalScheme
scheme_for none = none
scheme_for (some d) = elim d.decision [
  | allow ↦ some policy_auto
  | require_approval ↦ some user_ed25519
  | deny ↦ none
]

unfoldable pub expected_scheme : List PolicyDecisionRow → AuthorizationRow → Option ApprovalScheme
unfolding latest decisions_for scheme_for
expected_scheme ds row = scheme_for (latest none (decisions_for row ds))

abbrev pub scheme_agrees : AuthorizationRow → Option ApprovalScheme → Bool
scheme_agrees row none = false
scheme_agrees row (some expected) = scheme_eq row.approval_scheme expected

unfoldable pub require_policy_scheme : AuthorizationRow → Action Store ⊤
require_policy_scheme row = do
  expected ← gets (λ s. expected_scheme s.decisions row)
  raise_if (not (scheme_agrees row expected)) scheme_invalid

unfoldable pub audit_proof_failure : AuthorizationRow → ReasonCode → Option Text → Action Store ⊤
audit_proof_failure row reason_code signing_key_id = audit row.mission_id security_violation (
    ("reason_code", Value.reason reason_code)
    ∷ ("authorization_id", Value.text row.authorization_id)
    ∷ ("approval_scheme", Value.word (scheme_word row.approval_scheme))
    ∷ ("signing_key_id", opt_text signing_key_id)
    ∷ ("transaction_digest", Value.text row.transaction_digest)
    ∷ ("proof_accepted", Value.flag false)
    ∷ [])

unfoldable pub verify_supplied_user_proof : Crypto → AuthorizationRow → Text → Characters → Result ⊤
verify_supplied_user_proof c row signing_key_id signature_hex =
    verify_user_ed25519_signature c
      (record {
        authorization_id = row.authorization_id;
        mission_id = row.mission_id;
        binding_version = row.binding_version;
        transaction_digest = row.transaction_digest;
        signing_key_id = signing_key_id;
      })
      signature_hex

-- `except AuthorizationProofFailure as failure: audit; raise`. Other exceptions pass.
unfoldable pub audit_refusal : AuthorizationRow → Option Text → Failure → Action Store ⊤
unfolding audit_proof_failure
audit_refusal row key (Failure.proof_failure code) = do
  audit_proof_failure row code key
  raise (Failure.proof_failure code)
audit_refusal row key other = raise other

unfoldable pub handle_refusal : AuthorizationRow → Option Text → Result ⊤ → Action Store ⊤
unfolding audit_refusal
handle_refusal row key (ok done) = pure done
handle_refusal row key (raised failure) = audit_refusal row key failure

-- The `try` block of an approval.
unfoldable pub check_proof : Crypto → AuthorizationRow → Text → Characters → Action Store ⊤
unfolding require_policy_scheme handle_refusal
check_proof c row signing_key_id signature_hex s =
    let (checked, s') =
      (do
        require_policy_scheme row
        lift (verify_supplied_user_proof c row signing_key_id signature_hex))
        s in
    handle_refusal row (some signing_key_id) checked s'

abbrev pub provable : Text → Text → AuthorizationRow → Moment → AuthorizationRow → Bool
provable mission_id authorization_id seen moment row =
    has_id authorization_id row
    && row.mission_id == mission_id
    && scheme_eq row.approval_scheme user_ed25519
    && status_eq row.status pending
    && ltb moment row.expires_at
    && row.binding_version == binding_version
    && row.transaction_digest == seen.transaction_digest
    && is_none row.signing_key_id
    && is_none row.approval_signature

abbrev pub proven : Text → Characters → AuthorizationRow → AuthorizationRow
proven signing_key_id signature_hex row = record row {
  status = active;
  signing_key_id = some signing_key_id;
  approval_signature = some signature_hex;
}

unfoldable pub approve_authorization_with_signature :
    Crypto → Text → Text → Text → Characters → Moment → Action Store AuthorizationRow
unfolding audit_proof_failure
approve_authorization_with_signature c mission_id authorization_id signing_key_id signature_hex
      moment =
    do
      found ← reload authorization_id
      row ← or_raise found Failure.not_found
      raise_if (not (row.mission_id == mission_id)) Failure.not_found
      when (not (status_eq row.status pending) || leb row.expires_at moment)
          (classify_and_raise c authorization_id none moment)
      when (not (scheme_eq row.approval_scheme user_ed25519)) (do
        audit_proof_failure row ReasonCode.authorization_approval_scheme_invalid
            (some signing_key_id)
        raise scheme_invalid)
      rebuild_bound_transaction c row
      raise_if (not (row.binding_version == binding_version)) Failure.binding_failure
      check_proof c row signing_key_id signature_hex
      changed ←
          apply_transition (provable mission_id authorization_id row moment)
            (proven signing_key_id signature_hex)
      when (not (changed == 1)) (classify_and_raise c authorization_id none moment)
      reloaded ← reload authorization_id
      activated ← or_raise reloaded Failure.not_found
      audit activated.mission_id authorization_activated (
          ("authorization_id", Value.text activated.authorization_id)
          ∷ ("status", Value.word (status_word activated.status))
          ∷ ("approval_scheme", Value.word (scheme_word user_ed25519))
          ∷ ("signing_key_id", Value.text signing_key_id)
          ∷ ("transaction_digest", Value.text activated.transaction_digest)
          ∷ [])
      pure activated

-- The durable proof of a USER_ED25519 row.
unfoldable pub verify_durable_proof :
    Crypto → AuthorizationRow → Option Text → Option Characters → Result ⊤
verify_durable_proof c row (some key) (some signature) =
    verify_supplied_user_proof c row key signature
verify_durable_proof c row none signature =
    raised (Failure.proof_failure ReasonCode.authorization_proof_missing)
verify_durable_proof c row (some key) none =
    raised (Failure.proof_failure ReasonCode.authorization_proof_missing)

-- The part of the verification that depends on the origin of the row.
unfoldable pub verify_origin : Crypto → AuthorizationRow → Result ⊤
unfolding verify_durable_proof
verify_origin c row =
    if scheme_eq row.approval_scheme policy_auto
    then (if is_some row.signing_key_id || is_some row.approval_signature
        then raised scheme_invalid
        else ok tt)
    else (if not (scheme_eq row.approval_scheme user_ed25519)
        then raised scheme_invalid
        else verify_durable_proof c row row.signing_key_id row.approval_signature)

unfoldable pub verify_authorization_for_payment :
    Crypto → AuthorizationRow → AuthorizationStatus → Moment → Action Store BoundTransaction
unfolding verify_origin rebuild_bound_transaction require_policy_scheme
verify_authorization_for_payment c row expected_status now = do
  tx ← rebuild_bound_transaction c row
  raise_if (not (row.binding_version == binding_version)) Failure.binding_failure
  when (not (status_eq row.status expected_status)) (do
    when (status_eq expected_status active)
        (classify_and_raise c row.authorization_id (some tx) now)
    raise Failure.not_active)
  when (status_eq expected_status active && leb row.expires_at now)
      (do expire_if_stale row.authorization_id now; raise Failure.expired)
  require_policy_scheme row
  lift (verify_origin c row)
  pure tx
