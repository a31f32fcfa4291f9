-- ===== src/Payment/Executor/Recover.antt =====
-- `_finish_existing_before_create` and `_recover_fenced_create`
-- (services/payment_executor/executor.py): the paths that search.
use pactra.Base.{
  Moment, Bool, true, false, Option, none, some, [], ◌∷◌, ◌++◌, is_some, if◌then◌else◌,
}
use pactra.Domain.{Failure, ReasonCode, EventType, Value}
use pactra.Action.{Result, ok, raised, Action, pure, gets, when, ◌>>=◌, ◌>>◌}
use pactra.Kernel.Transaction.{Crypto}
use pactra.Payment.State.{PaymentIntentState, provider_pending, state_eq, state_word}
use pactra.Payment.Rows.{
  ProviderPayment, ProviderError, timeout, error_detail, error_reason, Answer, answer, fails,
  PaymentProvider,
}
use pactra.Payment.Executor.Session.{
  ProviderCall, Session, DispatchResult, record_call, append_event, enqueue_reconciliation,
  complete_event, verify_intent_authorization,
}
use pactra.Payment.Executor.Apply.{
  validate_provider_payment, apply_provider_payment, provider_evidence_payload,
}
use pactra.Payment.Executor.Uncertain.{mark_uncertain, record_payment_attempt}

-- `try: … except ProviderPaymentMismatch`: `none` if a mismatch was raised. Other exceptions pass.
unfoldable pub caught : {A : Type 0} → Result A → Result (Option A)
caught (ok a) = ok (some a)
caught (raised Failure.payment_mismatch) = ok none
caught (raised other) = raised other

unfoldable pub catch_mismatch : {A : Type 0} → Action Session A → Action Session (Option A)
unfolding caught
catch_mismatch m s = let (r, s') = m s in (caught r, s')

abbrev pub is_timeout : ProviderError → Bool
is_timeout (timeout d) = true
is_timeout _ = false

-- Mark the intent uncertain, complete the event, and answer that a reconciliation is scheduled.
unfoldable pub give_up : Value → Moment → ReasonCode → Bool → Action Session DispatchResult
give_up detail now reason_code timed_out = do
  mark_uncertain detail now reason_code timed_out
  complete_event now
  pure (record { state = provider_pending; provider_called = true; retry_scheduled = true })

unfoldable pub adopt :
    ProviderPayment → Moment → Option PaymentIntentState → Action Session DispatchResult
adopt existing now none =
    give_up (Value.message "the provider payment does not describe the intent" none) now
      ReasonCode.provider_response_mismatch false
adopt existing now (some state) = do
  intent ← gets (λ s. s.intent)
  append_event EventType.payment_reconciled (
      ("payment_intent_id", Value.text intent.id)
        ∷ ("provider", Value.text intent.provider)
        ∷ provider_evidence_payload existing
      ++ ("state", Value.word (state_word state))
        ∷ ("recovered_before_create", Value.flag true)
        ∷ ("provider_create_fenced", Value.flag (is_some intent.provider_create_fenced_at))
        ∷ [])
  when (state_eq state provider_pending) (enqueue_reconciliation now)
  complete_event now
  pure (record {
    state = state;
    provider_called = true;
    retry_scheduled = state_eq state provider_pending;
  })

unfoldable pub finish_existing_before_create :
    ProviderPayment → Moment → Action Session DispatchResult
finish_existing_before_create existing now = do
  intent ← gets (λ s. s.intent)
  if is_some intent.provider_ambiguity_observed_at
      then give_up (Value.message "multiple exact Orders were observed previously" none) now
          ReasonCode.provider_ambiguity false
      else (do
        outcome ← catch_mismatch (do
          validate_provider_payment true existing
          record_payment_attempt false true
          apply_provider_payment existing now)
        adopt existing now outcome)

-- The call of `get_payment` by idempotency key.
unfoldable pub look_up : PaymentProvider → Action Session (Answer (Option ProviderPayment))
look_up provider = do
  intent ← gets (λ s. s.intent)
  record_call (ProviderCall.get_payment none intent.idempotency_key)
  pure (provider.get_payment none intent.idempotency_key)

unfoldable pub recovered : Moment → Answer (Option ProviderPayment) → Action Session DispatchResult
recovered now (fails error) =
    give_up (Value.message "fenced create recovery lookup failed: " (some (error_detail error))) now
      (error_reason error) (is_timeout error)
recovered now (answer (some existing)) = finish_existing_before_create existing now
recovered now (answer none) =
    give_up (Value.message "create permission is fenced and receipt search found no Order" none) now
      ReasonCode.provider_create_fenced false

unfoldable pub recover_fenced_create :
    Crypto → PaymentProvider → Moment → Action Session DispatchResult
recover_fenced_create c provider now = do
  verify_intent_authorization c now
  found ← look_up provider
  recovered now found
