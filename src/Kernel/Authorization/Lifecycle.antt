-- ===== src/Kernel/Authorization/Lifecycle.antt =====
-- `issue_authorization`, `activate_authorization`, `consume_authorization` and
-- `revoke_authorization` of services/security_kernel/authorization.py.
use pactra.Base.{⊤, Text, Moment, Bool, not, ◌&&◌, none, some, [], ◌∷◌, ◌++◌, ◌==◌, ltb, is_none}
use pactra.Domain.{
  Failure, authorization_created, authorization_activated, authorization_consumed,
  authorization_revoked, Value,
}
use pactra.Action.{Action, pure, or_raise, modify, raise_if, when, ◌>>=◌, ◌>>◌}
use pactra.Kernel.Capability.{CapabilitySet, Capability, enforce_registered}
use pactra.Kernel.Transaction.{Crypto, BoundTransaction, binding_version, digest}
use pactra.Kernel.Approval.{ApprovalScheme, policy_auto, legacy_server, scheme_eq, scheme_word}
use pactra.Kernel.Authorization.Rows.{
  AuthorizationRow, pending, active, consumed, revoked, status_eq, status_word, Store, has_id,
  apply_transition, reload, audit,
}
use pactra.Kernel.Authorization.Classify.{is_live, classify_and_raise}

-- The row that an issuance writes; `authorization_id` is the result of `uuid4`.
unfoldable pub issued_row :
    Crypto → Text → Text → BoundTransaction → ApprovalScheme → Moment → AuthorizationRow
issued_row c authorization_id mission_id tx scheme now = record {
  authorization_id = authorization_id;
  mission_id = mission_id;
  transaction_digest = digest c tx;
  nonce = tx.nonce;
  binding_version = binding_version;
  policy_version = tx.policy_version;
  offer_version = tx.offer_version;
  approval_scheme = scheme;
  signing_key_id = none;
  approval_signature = none;
  status = pending;
  issued_at = now;
  expires_at = tx.expires_at;
  consumed_at = none;
  bound_merchant_id = tx.merchant_id;
  bound_product_id = tx.product_id;
  bound_quantity = tx.quantity;
  bound_amount_inr = tx.amount_inr;
  bound_currency = tx.currency;
}

-- `session.add(row); await session.flush()`
unfoldable pub add_row : AuthorizationRow → Action Store ⊤
unfolding ◌>>=◌
add_row row = modify λ s. record s { authorizations = s.authorizations ++ row ∷ [] }

unfoldable pub issue_authorization :
    Crypto
    → (new_id : Text) → CapabilitySet
    → (mission_id : Text) → BoundTransaction
    → ApprovalScheme
    → (now : Moment) → Action Store AuthorizationRow
unfolding issued_row add_row
issue_authorization c new_id capabilities mission_id tx scheme now = do
  enforce_registered capabilities Capability.authorization_issue
  raise_if (scheme_eq scheme legacy_server) Failure.invariant_violation
  raise_if (not (ltb now tx.expires_at)) Failure.invariant_violation
  add_row (issued_row c new_id mission_id tx scheme now)
  audit mission_id authorization_created (
      ("authorization_id", Value.text new_id)
      ∷ ("status", Value.word (status_word pending))
      ∷ ("transaction_digest_prefix", Value.prefix (digest c tx))
      ∷ ("policy_version", Value.text tx.policy_version)
      ∷ ("offer_version", Value.text tx.offer_version)
      ∷ ("binding_version", Value.text binding_version)
      ∷ ("approval_scheme", Value.word (scheme_word scheme))
      ∷ ("expires_at", Value.moment tx.expires_at)
      ∷ ("bound_merchant_id", Value.text tx.merchant_id)
      ∷ ("bound_product_id", Value.text tx.product_id)
      ∷ ("bound_quantity", Value.number tx.quantity)
      ∷ ("bound_amount_inr", Value.number tx.amount_inr)
      ∷ ("bound_currency", Value.text tx.currency)
      ∷ [])
  pure (issued_row c new_id mission_id tx scheme now)

abbrev pub activatable : Text → Moment → AuthorizationRow → Bool
activatable authorization_id moment row =
    has_id authorization_id row
    && scheme_eq row.approval_scheme policy_auto
    && status_eq row.status pending
    && ltb moment row.expires_at
    && is_none row.signing_key_id
    && is_none row.approval_signature

abbrev pub activated : AuthorizationRow → AuthorizationRow
activated row = record row { status = active }

unfoldable pub activate_authorization : Crypto → Text → Moment → Action Store AuthorizationRow
activate_authorization c authorization_id moment = do
  changed ← apply_transition (activatable authorization_id moment) activated
  when (not (changed == 1)) (classify_and_raise c authorization_id none moment)
  found ← reload authorization_id
  row ← or_raise found Failure.not_found
  audit row.mission_id authorization_activated (
      ("authorization_id", Value.text row.authorization_id)
      ∷ ("status", Value.word (status_word row.status))
      ∷ ("transaction_digest_prefix", Value.prefix row.transaction_digest)
      ∷ ("approval_scheme", Value.word (scheme_word policy_auto))
      ∷ [])
  pure row

abbrev pub consumable : Crypto → Text → BoundTransaction → Moment → AuthorizationRow → Bool
consumable c authorization_id tx moment row =
    has_id authorization_id row
    && status_eq row.status active
    && row.transaction_digest == digest c tx
    && ltb moment row.expires_at

abbrev pub consumed_row : Moment → AuthorizationRow → AuthorizationRow
consumed_row moment row = record row { status = consumed; consumed_at = some moment }

unfoldable pub consume_authorization :
    Crypto → Text → BoundTransaction → Moment → Action Store AuthorizationRow
consume_authorization c authorization_id tx moment = do
  changed ← apply_transition (consumable c authorization_id tx moment) (consumed_row moment)
  when (not (changed == 1)) (classify_and_raise c authorization_id (some tx) moment)
  found ← reload authorization_id
  row ← or_raise found Failure.not_found
  audit row.mission_id authorization_consumed (
      ("authorization_id", Value.text row.authorization_id)
      ∷ ("status", Value.word (status_word row.status))
      ∷ ("transaction_digest_prefix", Value.prefix (digest c tx))
      ∷ ("consumed_at", Value.moment moment)
      ∷ [])
  pure row

abbrev pub revocable : Text → AuthorizationRow → Bool
revocable authorization_id row = has_id authorization_id row && is_live row

abbrev pub revoked_row : AuthorizationRow → AuthorizationRow
revoked_row row = record row { status = revoked }

unfoldable pub revoke_authorization : Crypto → Text → Text → Moment → Action Store AuthorizationRow
revoke_authorization c authorization_id reason moment = do
  changed ← apply_transition (revocable authorization_id) revoked_row
  when (not (changed == 1)) (classify_and_raise c authorization_id none moment)
  found ← reload authorization_id
  row ← or_raise found Failure.not_found
  audit row.mission_id authorization_revoked (
      ("authorization_id", Value.text row.authorization_id)
      ∷ ("status", Value.word (status_word row.status))
      ∷ ("reason", Value.text reason)
      ∷ [])
  pure row
