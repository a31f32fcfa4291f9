-- ===== src/Domain/Failures.antt =====
-- The exceptions that the services raise (services/security_kernel/authorization.py,
-- packages/schemas/invariants.py, services/payment_executor). Their texts for people are left out.
use pactra.Domain.Codes.{ReasonCode}

pub data Failure : Type 0 where
  -- AuthorizationFailure and its subclasses.
  binding_failure replay_detected expired not_active not_found : Failure
  proof_failure : ReasonCode → Failure
  -- InvariantViolation, CapabilityDenied.
  invariant_violation capability_denied : Failure
  -- IllegalPaymentTransition, ProviderPaymentMismatch.
  illegal_transition payment_mismatch : Failure
  -- RuntimeError for a fence that is not durable.
  runtime_error : Failure
  -- WebhookRejected with its reason.
  webhook_rejected : ReasonCode → Failure
  -- PaymentRequestRejected, IdempotencyConflict, MissionNotAuthorized.
  request_rejected idempotency_conflict mission_not_authorized : Failure
  -- IntegrityError of a unique index.
  integrity_error : Failure
  -- ValueError of the worker.
  value_error : Failure
