-- ===== src/Payment/Executor/Apply.antt =====
-- Folding a provider's answer into the intent (services/payment_executor/executor.py).
use pactra.Base.{
  ⊤, ℕ, Text, Moment, max, Bool, true, false, not, ◌&&◌, ◌||◌, Option, none, some, [], ◌∷◌, ◌++◌,
  ◌==◌, String, is_none, if◌then◌else◌,
}
use pactra.Domain.{Failure, ReasonCode, MissionState, EventType, Payload, Value}
use pactra.Action.{Action, pure, gets, raise_if, when, ◌>>=◌, ◌>>◌}
use pactra.Payment.State.{
  PaymentIntentState, state_eq, is_terminal, provider_status_to_state, ProviderPaymentStatus,
  status_word,
}
use pactra.Payment.Rows.{PaymentIntentRow, ProviderPayment}
use pactra.Payment.Executor.Session.{
  Session, update_intent, apply_mission_state, apply_payment_transition,
}

-- `assign_once`: `read` gives the attribute as it is now, `write` sets it.
unfoldable pub assign_to :
    Option Text → Text → (PaymentIntentRow → PaymentIntentRow) → Action Session ⊤
assign_to none value write = update_intent write
assign_to (some existing) value write = raise_if (not (existing == value)) Failure.payment_mismatch

unfoldable pub assign_once :
    (PaymentIntentRow → Option Text)
    → (Text → PaymentIntentRow → PaymentIntentRow)
    → Option Text
    → Action Session ⊤
unfolding assign_to
assign_once read write none = pure tt
assign_once read write (some value) = do
  intent ← gets (λ s. s.intent)
  assign_to (read intent) value (write value)

abbrev attempts_or_zero : Option ℕ → ℕ
attempts_or_zero none = 0
attempts_or_zero (some n) = n

unfoldable pub note_status : Option Text → PaymentIntentRow → PaymentIntentRow
note_status none intent = intent
note_status (some status) intent = record intent { provider_status = some status }

unfoldable pub note_attempts : Option ℕ → PaymentIntentRow → PaymentIntentRow
note_attempts none intent = intent
note_attempts (some n) intent = record intent {
  provider_attempts = some (max (attempts_or_zero intent.provider_attempts) n);
}

abbrev pub is_succeeded : ProviderPaymentStatus → Bool
is_succeeded ProviderPaymentStatus.succeeded = true
is_succeeded _ = false

unfoldable pub link_provider_payment : ProviderPayment → Action Session ⊤
link_provider_payment payment = do
  assign_once (λ i. i.provider_payment_id) (λ v i. record i { provider_payment_id = some v })
      (some payment.provider_payment_id)
  assign_once (λ i. i.provider_order_id) (λ v i. record i { provider_order_id = some v })
      payment.provider_order_id
  assign_once (λ i. i.provider_receipt) (λ v i. record i { provider_receipt = some v })
      payment.provider_receipt
  when (is_succeeded payment.status) (
      assign_once (λ i. i.provider_transaction_id)
        (λ v i. record i { provider_transaction_id = some v }) payment.provider_transaction_id)
  update_intent (note_status payment.provider_status)
  update_intent (note_attempts payment.provider_attempts)

entry : String → Option Text → Payload
entry key none = []
entry key (some v) = (key, Value.text v) ∷ []

entry_number : String → Option ℕ → Payload
entry_number key none = []
entry_number key (some n) = (key, Value.number n) ∷ []

unfoldable pub provider_evidence_payload : ProviderPayment → Payload
unfolding entry entry_number
provider_evidence_payload payment =
    ("provider_payment_id", Value.text payment.provider_payment_id)
      ∷ entry "provider_order_id" payment.provider_order_id
    ++ entry "provider_transaction_id" payment.provider_transaction_id
    ++ entry "provider_receipt" payment.provider_receipt
    ++ entry "provider_status" payment.provider_status
    ++ entry_number "provider_attempts" payment.provider_attempts

key_agrees : Bool → Option Text → Text → Bool
key_agrees require_idempotency_key none expected = not require_idempotency_key
key_agrees require_idempotency_key (some key) expected = key == expected

-- Whether `validate_provider_payment` finds no mismatch.
unfoldable pub describes : Bool → ProviderPayment → PaymentIntentRow → Bool
unfolding key_agrees
describes require_idempotency_key payment intent =
    payment.provider == intent.provider
    && payment.amount_inr == intent.amount_inr
    && payment.currency == intent.currency
    && key_agrees require_idempotency_key payment.idempotency_key intent.idempotency_key

unfoldable pub validate_provider_payment : Bool → ProviderPayment → Action Session ⊤
unfolding describes
validate_provider_payment require_idempotency_key payment = do
  intent ← gets (λ s. s.intent)
  raise_if (not (describes require_idempotency_key payment intent)) Failure.payment_mismatch

unfoldable pub settle : PaymentIntentState → ProviderPayment → Moment → Action Session ⊤
settle PaymentIntentState.succeeded payment moment = do
  intent ← gets (λ s. s.intent)
  apply_payment_transition PaymentIntentState.succeeded EventType.payment_succeeded
      (("provider", Value.text intent.provider) ∷ provider_evidence_payload payment
        ++ ("amount_inr", Value.number intent.amount_inr)
          ∷ ("currency", Value.text intent.currency)
          ∷ ("settled_at", Value.moment moment)
          ∷ [])
      none
  apply_mission_state MissionState.payment_succeeded
settle PaymentIntentState.failed_terminal payment moment = do
  intent ← gets (λ s. s.intent)
  apply_payment_transition PaymentIntentState.failed_terminal EventType.payment_failed
      (("provider", Value.text intent.provider) ∷ provider_evidence_payload payment)
      (some ReasonCode.provider_terminal_failure)
  apply_mission_state MissionState.payment_failed
settle other payment moment = do
  intent ← gets (λ s. s.intent)
  apply_payment_transition PaymentIntentState.provider_pending EventType.payment_provider_uncertain
      (("provider", Value.text intent.provider) ∷ provider_evidence_payload payment
        ++ ("provider_state", Value.word (status_word payment.status)) ∷ [])
      none

unfoldable pub apply_provider_payment : ProviderPayment → Moment → Action Session PaymentIntentState
apply_provider_payment payment moment = do
  intent ← gets (λ s. s.intent)
  let current = intent.state
  let target = provider_status_to_state payment.status
  validate_provider_payment (is_none intent.provider_payment_id) payment
  link_provider_payment payment
  if state_eq current target || is_terminal current
      then pure current
      else (do settle target payment moment; gets (λ s. s.intent.state))
