-- ===== src/Payment/Executor/Create.antt =====
-- From the receipt search to the result of the create call (`dispatch_create` of
-- services/payment_executor/executor.py), and `_audit_retry`.
use pactra.Base.{
  ⊤, Text, Moment, Bool, true, false, not, Option, none, some, [], ◌∷◌, if◌then◌else◌,
}
use pactra.Domain.{Failure, ReasonCode, MissionState, EventType, Value}
use pactra.Action.{Action, pure, raise, gets, raise_if, when, ◌>>=◌, ◌>>◌}
use pactra.Kernel.Transaction.{Crypto}
use pactra.Payment.State.{
  PaymentIntentState, provider_pending, failed_retryable, failed_terminal, state_eq,
}
use pactra.Payment.Rows.{
  PaymentIntentRow, PaymentRequest, ProviderPayment, ProviderError, timeout, transient, ambiguity,
  terminal, mismatch, error_detail, error_reason, Answer, answer, fails, PaymentProvider,
}
use pactra.Payment.Executor.Session.{
  ProviderCall, Session, DispatchResult, reschedule, record_call, append_event,
  enqueue_reconciliation, complete_event, apply_mission_state, apply_payment_transition,
  verify_intent_authorization,
}
use pactra.Payment.Executor.Apply.{validate_provider_payment, apply_provider_payment}
use pactra.Payment.Executor.Uncertain.{record_payment_attempt}
use pactra.Payment.Executor.Recover.{
  catch_mismatch, is_timeout, give_up, finish_existing_before_create, look_up,
}

-- `_audit_retry`
unfoldable pub audit_retry : Bool → Action Session ⊤
audit_retry retried = do
  intent ← gets (λ s. s.intent)
  event ← gets (λ s. s.event)
  append_event
      (if retried then EventType.payment_retry_scheduled else EventType.outbox_event_dead_lettered)
      (("payment_intent_id", Value.text intent.id)
        ∷ ("outbox_event_id", Value.text event.id)
        ∷ ("attempts", Value.number event.attempts)
        ∷ ("max_attempts", Value.number event.max_attempts)
        ∷ ("available_at", Value.moment event.available_at)
        ∷ [])

-- A transient refusal of a create.
unfoldable pub refused_transiently :
    PaymentProvider → Moment → ProviderError → Action Session DispatchResult
refused_transiently provider now error =
    if not provider.create_retries_are_idempotent
    then give_up (Value.message "automatic create retry remains prohibited" none) now
        (error_reason error) false
    else (do
      intent ← gets (λ s. s.intent)
      apply_payment_transition failed_retryable EventType.payment_failed
          (("provider", Value.text intent.provider) ∷ ("retryable", Value.flag true) ∷ [])
          (some ReasonCode.provider_transient_failure)
      rescheduled ← reschedule (Value.text (error_detail error)) now
      audit_retry rescheduled
      pure (record {
        state = failed_retryable;
        provider_called = true;
        retry_scheduled = rescheduled;
      }))

unfoldable pub refused_terminally : Moment → Text → Action Session DispatchResult
refused_terminally now detail = do
  intent ← gets (λ s. s.intent)
  apply_payment_transition failed_terminal EventType.payment_failed
      (("provider", Value.text intent.provider)
        ∷ ("retryable", Value.flag false)
        ∷ ("detail", Value.text detail)
        ∷ [])
      (some ReasonCode.provider_terminal_failure)
  apply_mission_state MissionState.payment_failed
  complete_event now
  pure (record { state = failed_terminal; provider_called = true; retry_scheduled = false })

unfoldable pub settled : Moment → Option PaymentIntentState → Action Session DispatchResult
settled now none =
    give_up (Value.message "the provider payment does not describe the intent" none) now
      ReasonCode.provider_response_mismatch false
settled now (some state) = do
  when (state_eq state provider_pending) (enqueue_reconciliation now)
  complete_event now
  pure (record {
    state = state;
    provider_called = true;
    retry_scheduled = state_eq state provider_pending;
  })

unfoldable pub created :
    PaymentProvider → Moment → Answer ProviderPayment → Action Session DispatchResult
created provider now (fails (timeout d)) =
    give_up (Value.text d) now ReasonCode.payment_provider_timeout true
created provider now (fails (transient d)) = refused_transiently provider now (transient d)
created provider now (fails (ambiguity d)) = refused_transiently provider now (ambiguity d)
created provider now (fails (terminal d)) = refused_terminally now d
created provider now (fails (mismatch d)) = raise Failure.payment_mismatch
created provider now (answer payment) = do
  outcome ←
      catch_mismatch (do validate_provider_payment true payment; apply_provider_payment payment now)
  settled now outcome

-- A mismatch is none of the errors that the call of `create_payment` is guarded against.
abbrev is_unguarded : Answer ProviderPayment → Bool
is_unguarded (fails (mismatch d)) = true
is_unguarded _ = false

unfoldable pub create :
    Crypto → PaymentProvider → PaymentRequest → Moment → Action Session DispatchResult
create c provider request now = do
  verify_intent_authorization c now
  record_call (ProviderCall.create_payment request)
  let payment = provider.create_payment request
  raise_if (is_unguarded payment) Failure.payment_mismatch
  record_payment_attempt true false
  created provider now payment

unfoldable pub preflight :
    Crypto
    → PaymentProvider
    → PaymentRequest
    → Moment
    → Answer (Option ProviderPayment)
    → Action Session DispatchResult
preflight c provider request now (fails error) =
    give_up (Value.message "pre-create lookup failed: " (some (error_detail error))) now
      (error_reason error) (is_timeout error)
preflight c provider request now (answer (some existing)) =
    finish_existing_before_create existing now
preflight c provider request now (answer none) = create c provider request now

payment_request : Crypto → PaymentIntentRow → PaymentRequest
payment_request c intent = record {
  idempotency_key = intent.idempotency_key;
  amount_inr = intent.amount_inr;
  currency = intent.currency;
  merchant_id = intent.merchant_id;
  transaction_digest_prefix = c.prefix16 intent.transaction_digest;
}

unfoldable pub search_and_create : Crypto → PaymentProvider → Moment → Action Session DispatchResult
unfolding payment_request
search_and_create c provider now = do
  intent ← gets (λ s. s.intent)
  found ← look_up provider
  preflight c provider (payment_request c intent) now found
