-- ===== src/Payment/Webhooks/Events.antt =====
-- Verified webhook events (packages/schemas/payment.py) and their table (apps/api/db/models.py).
-- The verification of a signature over the raw body is a parameter.
use pactra.Base.{ℕ, Text, Moment, Bool, ◌&&◌, Option, String, ◌==◌}
use pactra.Domain.{ReasonCode}
use pactra.Payment.State.{PaymentIntentState, provider_pending, succeeded, failed_terminal}

pub data WebhookEventType : Type 0 where
  payment_succeeded payment_failed payment_pending payment_attempt_failed : WebhookEventType

unfoldable pub webhook_type_to_state : WebhookEventType → PaymentIntentState
webhook_type_to_state payment_succeeded = succeeded
webhook_type_to_state payment_failed = failed_terminal
webhook_type_to_state payment_pending = provider_pending
webhook_type_to_state payment_attempt_failed = provider_pending

abbrev pub type_word : WebhookEventType → String
type_word payment_succeeded = "payment.succeeded"
type_word payment_failed = "payment.failed"
type_word payment_pending = "payment.pending"
type_word payment_attempt_failed = "payment.attempt_failed"

pub record VerifiedWebhookEvent : Type 0 where
  pub provider : Text
  pub provider_event_id : Text
  pub event_type : WebhookEventType
  pub provider_payment_id : Text
  pub provider_order_id : Option Text
  pub provider_transaction_id : Option Text
  pub amount_inr : Option ℕ
  pub currency : Option Text
  pub provider_status : Option Text
  pub provider_attempts : Option ℕ
  pub sequence : Option ℕ

-- What `verify_webhook` gives: an event, or a `WebhookVerificationError` with its reason.
pub data Verification : Type 0 where
  verified : VerifiedWebhookEvent → Verification
  refused : ReasonCode → Verification

pub record WebhookProvider : Type 0 where
  pub name : Text
  pub verify_webhook : Text → Text → Option Text → Verification

pub record WebhookEventRow : Type 0 where
  pub id : Text
  pub provider : Text
  pub provider_event_id : Text
  pub event_type : WebhookEventType
  pub provider_payment_id : Text
  pub provider_transaction_id : Option Text
  pub payment_intent_id : Text
  pub sequence : Option ℕ
  pub received_at : Moment
  pub processed_at : Option Moment
  pub applied_state : Option PaymentIntentState

-- `uq_webhook_events_provider_event`
abbrev pub same_event : VerifiedWebhookEvent → WebhookEventRow → Bool
same_event event row =
    row.provider == event.provider && row.provider_event_id == event.provider_event_id
