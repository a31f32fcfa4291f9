-- ===== src/Domain/Codes.antt =====
-- Enumerations of packages/schemas/domain.py.

pub data MissionState : Type 0 where
  created intent_parsed discovering offers_received offers_normalized ranked : MissionState
  policy_checked awaiting_approval authorized payment_pending payment_succeeded : MissionState
  payment_failed completed cancelled : MissionState

pub data PolicyOutcome : Type 0 where
  allow require_approval deny : PolicyOutcome

pub data ReasonCode : Type 0 where
  no_valid_offers hard_limit_exceeded blocked_merchant merchant_not_allowed : ReasonCode
  rating_below_min currency_not_allowed out_of_stock merchant_trust_too_low : ReasonCode
  merchant_identity_mismatch soft_budget_exceeded within_limits : ReasonCode
  authority_escalation capability_denied : ReasonCode
  transaction_binding_failure authorization_replay_detected authorization_expired : ReasonCode
  authorization_not_active authorization_not_found : ReasonCode
  authorization_signature_invalid authorization_signature_malformed : ReasonCode
  authorization_signing_key_unknown authorization_proof_missing : ReasonCode
  authorization_approval_scheme_invalid bind_refused_offer_changed : ReasonCode
  idempotency_conflict payment_provider_timeout provider_transient_failure : ReasonCode
  provider_ambiguity provider_terminal_failure provider_response_mismatch : ReasonCode
  provider_payment_not_found provider_create_fenced : ReasonCode
  provider_payment_attempt_failed illegal_payment_transition : ReasonCode
  mission_not_authorized payment_intent_not_found : ReasonCode
  webhook_signature_invalid webhook_event_id_missing webhook_payload_invalid : ReasonCode
  webhook_duplicate webhook_unknown_payment : ReasonCode
