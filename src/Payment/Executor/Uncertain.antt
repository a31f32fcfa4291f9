-- ===== src/Payment/Executor/Uncertain.antt =====
-- `_mark_uncertain`, `remember_provider_ambiguity` and `record_payment_attempt`
-- (services/payment_executor/executor.py).
use pactra.Base.{
  ⊤, Moment, ◌+◌, Bool, true, false, ◌||◌, Option, none, some, [], ◌∷◌, ◌++◌, is_some,
  if◌then◌else◌,
}
use pactra.Domain.{ReasonCode, EventType, Value}
use pactra.Action.{Action, gets, when, ◌>>=◌, ◌>>◌}
use pactra.Payment.State.{
  processing, provider_pending, queued, failed_retryable, state_eq, state_word,
  assert_payment_transition,
}
use pactra.Payment.Rows.{PaymentIntentRow}
use pactra.Payment.Executor.Session.{
  Session, update_intent, append_event, enqueue_reconciliation, apply_payment_transition,
}

-- The first observation is kept.
abbrev pub first_seen : Option Moment → Moment → Option Moment
first_seen none now = some now
first_seen (some at) now = some at

unfoldable pub remember_provider_ambiguity : Moment → PaymentIntentRow → PaymentIntentRow
remember_provider_ambiguity now intent = record intent {
  provider_ambiguity_observed_at = first_seen intent.provider_ambiguity_observed_at now;
  last_reason_code = some ReasonCode.provider_ambiguity;
}

abbrev is_ambiguity : ReasonCode → Bool
is_ambiguity ReasonCode.provider_ambiguity = true
is_ambiguity _ = false

-- `False if intent.provider_create_fenced_at is not None else None`
abbrev replacement_permitted : Option Moment → Value
replacement_permitted none = Value.null
replacement_permitted (some at) = Value.flag false

unfoldable pub mark_uncertain : Value → Moment → ReasonCode → Bool → Action Session ⊤
mark_uncertain detail now observed_reason_code timed_out = do
  before ← gets (λ s. s.intent)
  let ambiguous = is_ambiguity observed_reason_code || is_some before.provider_ambiguity_observed_at
  let reason_code = if ambiguous then ReasonCode.provider_ambiguity else observed_reason_code
  when ambiguous (update_intent (remember_provider_ambiguity now))
  intent ← gets (λ s. s.intent)
  when timed_out (
      append_event EventType.payment_provider_timeout (
        ("payment_intent_id", Value.text intent.id)
        ∷ ("reason_code", Value.reason observed_reason_code)
        ∷ ("provider", Value.text intent.provider)
        ∷ ("detail", detail)
        ∷ ("provider_ambiguity_remains", Value.flag (is_some intent.provider_ambiguity_observed_at))
        ∷ []))
  let payload =
      ("provider", Value.text intent.provider)
      ∷ ("provider_payment_may_exist", Value.flag true)
      ∷ ("resolution", Value.word "reconciliation")
      ∷ ("provider_create_fenced", Value.flag (is_some intent.provider_create_fenced_at))
      ∷ ("provider_ambiguity_observed", Value.flag (is_some intent.provider_ambiguity_observed_at))
      ∷ ("replacement_create_permitted", replacement_permitted intent.provider_create_fenced_at)
      ∷ ("detail", detail)
      ∷ []
  if state_eq intent.state provider_pending
      then (do
        update_intent (λ i. record i { last_reason_code = some reason_code })
        append_event EventType.payment_provider_uncertain (
            ("payment_intent_id", Value.text intent.id)
              ∷ ("state", Value.word (state_word provider_pending))
              ∷ payload
            ++ ("reason_code", Value.reason reason_code) ∷ []))
      else apply_payment_transition provider_pending EventType.payment_provider_uncertain payload
          (some reason_code)
  enqueue_reconciliation now

-- `if current == FAILED_RETRYABLE: assert …; intent.state = QUEUED`
unfoldable pub requeue_retryable : Action Session ⊤
requeue_retryable = do
  intent ← gets (λ s. s.intent)
  when (state_eq intent.state failed_retryable) (do
    assert_payment_transition intent.state queued
    update_intent (λ i. record i { state = queued }))

unfoldable pub record_payment_attempt : Bool → Bool → Action Session ⊤
record_payment_attempt provider_create_invoked recovered_existing = do
  requeue_retryable
  intent ← gets (λ s. s.intent)
  when (state_eq intent.state queued) (do
    apply_payment_transition processing EventType.payment_attempted
        (("provider", Value.text intent.provider)
          ∷ ("attempt", Value.number (intent.attempts + 1))
          ∷ ("provider_create_invoked", Value.flag provider_create_invoked)
          ∷ ("recovered_existing_provider_payment", Value.flag recovered_existing)
          ∷ [])
        none
    update_intent (λ i. record i { attempts = i.attempts + 1 }))
