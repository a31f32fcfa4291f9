-- ===== src/Payment/Rows.antt =====
-- The rows of the payment executor (apps/api/db/models.py) and what a provider says
-- (packages/schemas/payment.py, services/payment_executor/providers/base.py). A provider is not
-- code that this model can read, since it talks to a network: it is a record of its answers.
use pactra.Base.{ℕ, Text, Moment, Bool, Option}
use pactra.Domain.{ReasonCode, Payload, Value}
use pactra.Payment.State.{PaymentIntentState, ProviderPaymentStatus}

pub record PaymentIntentRow : Type 0 where
  pub id : Text
  pub mission_id : Text
  pub authorization_id : Text
  pub transaction_digest : Text
  pub idempotency_key : Text
  pub request_fingerprint : Text
  pub amount_inr : ℕ
  pub currency : Text
  pub merchant_id : Text
  pub provider : Text
  pub provider_payment_id : Option Text
  pub provider_order_id : Option Text
  pub provider_transaction_id : Option Text
  pub provider_receipt : Option Text
  pub provider_status : Option Text
  pub provider_attempts : Option ℕ
  pub provider_create_fenced_at : Option Moment
  pub provider_ambiguity_observed_at : Option Moment
  pub state : PaymentIntentState
  pub attempts : ℕ
  pub last_reason_code : Option ReasonCode

pub data OutboxStatus : Type 0 where
  pending in_progress processed failed : OutboxStatus

pub data OutboxEventType : Type 0 where
  payment_create_requested payment_reconcile_requested : OutboxEventType

pub record OutboxEventRow : Type 0 where
  pub id : Text
  pub payment_intent_id : Text
  pub event_type : OutboxEventType
  pub payload : Payload
  pub status : OutboxStatus
  pub attempts : ℕ
  pub max_attempts : ℕ
  pub available_at : Moment
  pub created_at : Moment
  pub claimed_by : Option Text
  pub last_error : Option Value
  pub processed_at : Option Moment

pub record PaymentRequest : Type 0 where
  pub idempotency_key : Text
  pub amount_inr : ℕ
  pub currency : Text
  pub merchant_id : Text
  pub transaction_digest_prefix : Text

pub record ProviderPayment : Type 0 where
  pub provider : Text
  pub provider_payment_id : Text
  pub status : ProviderPaymentStatus
  pub amount_inr : ℕ
  pub currency : Text
  pub idempotency_key : Option Text
  pub provider_order_id : Option Text
  pub provider_transaction_id : Option Text
  pub provider_receipt : Option Text
  pub provider_status : Option Text
  pub provider_attempts : Option ℕ
  pub idempotent_replay : Bool

-- The subclasses of `ProviderError` that a provider raises, each with its detail. An ambiguity is
-- a transient error too.
pub data ProviderError : Type 0 where
  timeout transient ambiguity terminal mismatch : Text → ProviderError

abbrev pub error_detail : ProviderError → Text
error_detail (timeout d) = d
error_detail (transient d) = d
error_detail (ambiguity d) = d
error_detail (terminal d) = d
error_detail (mismatch d) = d

abbrev pub error_reason : ProviderError → ReasonCode
error_reason (timeout d) = ReasonCode.payment_provider_timeout
error_reason (transient d) = ReasonCode.provider_transient_failure
error_reason (ambiguity d) = ReasonCode.provider_ambiguity
error_reason (terminal d) = ReasonCode.provider_terminal_failure
error_reason (mismatch d) = ReasonCode.provider_response_mismatch

pub data Answer (A : Type 0) : Type 0 where
  answer : A → Answer A
  fails : ProviderError → Answer A

-- What a provider answers to the calls of one dispatch.
pub record PaymentProvider : Type 0 where
  pub name : Text
  pub create_retries_are_idempotent : Bool
  pub create_payment : PaymentRequest → Answer ProviderPayment
  pub get_payment : Option Text → Text → Answer (Option ProviderPayment)
