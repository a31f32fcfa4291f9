-- ===== src/Payment/Reconciliation/Branches.antt =====
-- What reconciliation does with each answer of the provider
-- (services/payment_executor/reconciliation.py).
use pactra.Base.{
  ⊤, Moment, Bool, true, false, not, ◌&&◌, ◌||◌, Option, none, some, [], ◌∷◌, ◌++◌, String, is_none,
  is_some, if◌then◌else◌,
}
use pactra.Domain.{ReasonCode, EventType, Payload, Value, opt_text}
use pactra.Action.{Action, pure, gets, when, ◌>>=◌, ◌>>◌}
use pactra.Payment.State.{
  PaymentIntentState, provider_pending, queued, failed_retryable, state_eq, state_word, status_word,
  assert_payment_transition,
}
use pactra.Payment.Rows.{
  ProviderPayment, ProviderError, ambiguity, error_detail, error_reason, OutboxEventType,
  PaymentProvider,
}
use pactra.Payment.Executor.Session.{
  Session, DispatchResult, update_intent, append_event, enqueue, complete_event, reschedule,
  apply_payment_transition,
}
use pactra.Payment.Executor.Apply.{
  validate_provider_payment, apply_provider_payment, provider_evidence_payload,
}
use pactra.Payment.Executor.Uncertain.{remember_provider_ambiguity, record_payment_attempt}
use pactra.Payment.Executor.Recover.{catch_mismatch}

-- The audit event that ends a round: whether the outbox event is tried again, and why.
unfoldable pub audit_round : Bool → ReasonCode → String → Action Session ⊤
audit_round retried reason_code phase = do
  intent ← gets (λ s. s.intent)
  event ← gets (λ s. s.event)
  append_event
      (if retried then EventType.payment_retry_scheduled else EventType.outbox_event_dead_lettered)
      (("payment_intent_id", Value.text intent.id)
        ∷ ("outbox_event_id", Value.text event.id)
        ∷ ("reason_code", Value.reason reason_code)
        ∷ ("phase", Value.word phase)
        ∷ [])

abbrev tried_again : PaymentIntentState → Bool → DispatchResult
tried_again state retried = record {
  state = state;
  provider_called = true;
  retry_scheduled = retried;
}

abbrev pub is_ambiguity_error : ProviderError → Bool
is_ambiguity_error (ambiguity d) = true
is_ambiguity_error _ = false

-- The provider reported an ambiguity: it is remembered, and the intent is uncertain.
unfoldable pub observe_ambiguity : ProviderError → Moment → Action Session ⊤
observe_ambiguity error now = do
  update_intent (remember_provider_ambiguity now)
  intent ← gets (λ s. s.intent)
  if state_eq intent.state provider_pending
      then append_event EventType.payment_provider_uncertain (
          ("payment_intent_id", Value.text intent.id)
          ∷ ("state", Value.word (state_word intent.state))
          ∷ ("provider", Value.text intent.provider)
          ∷ ("provider_ambiguity_observed", Value.flag true)
          ∷ ("replacement_create_permitted", Value.flag false)
          ∷ ("detail", Value.text (error_detail error))
          ∷ ("reason_code", Value.reason ReasonCode.provider_ambiguity)
          ∷ [])
      else apply_payment_transition provider_pending EventType.payment_provider_uncertain
          (("provider", Value.text intent.provider)
            ∷ ("provider_ambiguity_observed", Value.flag true)
            ∷ ("replacement_create_permitted", Value.flag false)
            ∷ ("detail", Value.text (error_detail error))
            ∷ [])
          (some ReasonCode.provider_ambiguity)

-- `except ProviderError`: the provider could not be asked.
unfoldable pub lookup_failed : ProviderError → Moment → Action Session DispatchResult
lookup_failed error now = do
  when (is_ambiguity_error error) (observe_ambiguity error now)
  retried ← reschedule (Value.text (error_detail error)) now
  audit_round retried (error_reason error) "reconciliation"
  current ← gets (λ s. s.intent.state)
  pure (tried_again current retried)

abbrev search_result : Option ProviderPayment → String
search_result none = "no_exact_match"
search_result (some payment) = "one_exact_candidate"

abbrev evidence : Option ProviderPayment → Payload
evidence none = []
evidence (some payment) = provider_evidence_payload payment

-- An ambiguity was observed earlier: nothing that the provider says now is adopted.
unfoldable pub known_ambiguity : Option ProviderPayment → Moment → Action Session DispatchResult
unfolding provider_evidence_payload
known_ambiguity payment now = do
  before ← gets (λ s. s.intent)
  if state_eq before.state provider_pending
      then update_intent (remember_provider_ambiguity now)
      else apply_payment_transition provider_pending EventType.payment_provider_uncertain
          (("provider", Value.text before.provider)
            ∷ ("provider_ambiguity_observed", Value.flag true)
            ∷ ("replacement_create_permitted", Value.flag false)
            ∷ ("resolution", Value.word "operator_review")
            ∷ [])
          (some ReasonCode.provider_ambiguity)
  retried ← reschedule (Value.word "known provider ambiguity remains unresolved") now
  intent ← gets (λ s. s.intent)
  append_event EventType.payment_reconciled (
      ("payment_intent_id", Value.text intent.id)
        ∷ ("provider", Value.text intent.provider)
        ∷ ("reason_code", Value.reason ReasonCode.provider_ambiguity)
        ∷ ("provider_ambiguity_observed", Value.flag true)
        ∷ ("current_search_result", Value.word (search_result payment))
        ∷ evidence payment
      ++ ("candidate_adopted", Value.flag false)
        ∷ ("replacement_create_permitted", Value.flag false)
        ∷ ("manual_recovery_required", Value.flag true)
        ∷ [])
  pure (tried_again intent.state retried)

-- A reference that was linked before is not found.
unfoldable pub linked_unresolved : Moment → Action Session DispatchResult
linked_unresolved now = do
  retried ← reschedule (Value.word "linked provider reference was not found") now
  intent ← gets (λ s. s.intent)
  append_event EventType.payment_reconciled (
      ("payment_intent_id", Value.text intent.id)
      ∷ ("provider", Value.text intent.provider)
      ∷ ("provider_payment_id", opt_text intent.provider_payment_id)
      ∷ ("reason_code", Value.reason ReasonCode.provider_payment_not_found)
      ∷ ("linked_provider_reference_unresolved", Value.flag true)
      ∷ ("replacement_create_permitted", Value.flag false)
      ∷ [])
  audit_round retried ReasonCode.provider_payment_not_found "linked-reference-reconciliation"
  pure (tried_again intent.state retried)

-- The create was fenced, and the provider shows no payment.
unfoldable pub fenced_unresolved : Moment → Action Session DispatchResult
fenced_unresolved now = do
  before ← gets (λ s. s.intent)
  if state_eq before.state provider_pending
      then update_intent
          (λ i. record i { last_reason_code = some ReasonCode.provider_create_fenced })
      else apply_payment_transition provider_pending EventType.payment_provider_uncertain
          (("provider", Value.text before.provider)
            ∷ ("provider_create_fenced", Value.flag true)
            ∷ ("provider_payment_may_exist", Value.flag true)
            ∷ ("replacement_create_permitted", Value.flag false)
            ∷ ("resolution", Value.word "reconciliation_or_operator_review")
            ∷ [])
          (some ReasonCode.provider_create_fenced)
  retried ← reschedule (Value.word "fenced create has no visible provider Order") now
  intent ← gets (λ s. s.intent)
  append_event EventType.payment_reconciled (
      ("payment_intent_id", Value.text intent.id)
      ∷ ("provider", Value.text intent.provider)
      ∷ ("reason_code", Value.reason ReasonCode.provider_create_fenced)
      ∷ ("provider_search_found_no_match", Value.flag true)
      ∷ ("provider_create_fenced", Value.flag true)
      ∷ ("replacement_create_permitted", Value.flag false)
      ∷ ("manual_recovery_may_be_required", Value.flag true)
      ∷ [])
  audit_round retried ReasonCode.provider_create_fenced "fenced-create-reconciliation"
  pure (tried_again intent.state retried)

unfoldable pub make_retryable : Action Session ⊤
make_retryable = do
  intent ← gets (λ s. s.intent)
  assert_payment_transition intent.state failed_retryable
  update_intent (λ i. record i {
    state = failed_retryable;
    last_reason_code = some ReasonCode.provider_payment_not_found;
  })

-- `_resolve_no_provider_payment`: creates are idempotent, so a retry is queued.
unfoldable pub resolve_no_provider_payment : Moment → Action Session DispatchResult
resolve_no_provider_payment now = do
  intent ← gets (λ s. s.intent)
  append_event EventType.payment_reconciled (
      ("payment_intent_id", Value.text intent.id)
      ∷ ("provider", Value.text intent.provider)
      ∷ ("reason_code", Value.reason ReasonCode.provider_payment_not_found)
      ∷ ("provider_holds_no_payment", Value.flag true)
      ∷ ("conclusion", Value.word "provider create contract makes a same-key retry idempotent")
      ∷ [])
  make_retryable
  enqueue OutboxEventType.payment_create_requested now
  complete_event now
  append_event EventType.payment_retry_scheduled (
      ("payment_intent_id", Value.text intent.id)
      ∷ ("state", Value.word (state_word failed_retryable))
      ∷ ("reason_code", Value.reason ReasonCode.provider_payment_not_found)
      ∷ [])
  pure (tried_again failed_retryable true)

-- The provider's payment is validated and folded into the intent, whose state it then has. The
-- variable `current` of the source is the state of the intent throughout.
unfoldable pub fold_found : ProviderPayment → Moment → Action Session PaymentIntentState
fold_found payment now = do
  intent ← gets (λ s. s.intent)
  validate_provider_payment (is_none intent.provider_payment_id) payment
  when (state_eq intent.state queued || state_eq intent.state failed_retryable)
      (record_payment_attempt false true)
  apply_provider_payment payment now

unfoldable pub resolved :
    ProviderPayment → Moment → Option PaymentIntentState → Action Session DispatchResult
resolved payment now none = do
  retried ← reschedule (Value.message "the provider payment does not describe the intent" none) now
  audit_round retried ReasonCode.provider_response_mismatch "reconciliation"
  current ← gets (λ s. s.intent.state)
  pure (tried_again current retried)
resolved payment now (some state) = do
  intent ← gets (λ s. s.intent)
  append_event EventType.payment_reconciled (
      ("payment_intent_id", Value.text intent.id)
        ∷ ("provider", Value.text intent.provider)
        ∷ provider_evidence_payload payment
      ++ ("provider_state", Value.word (status_word payment.status))
        ∷ ("state", Value.word (state_word state))
        ∷ ("resolved_existing_provider_payment", Value.flag true)
        ∷ [])
  if state_eq state provider_pending
      then (do
        retried ← reschedule (Value.word "provider payment still pending") now
        pure (tried_again state retried))
      else (do
        complete_event now
        pure (record { state = state; provider_called = true; retry_scheduled = false }))

unfoldable pub adopt_found : ProviderPayment → Moment → Action Session DispatchResult
adopt_found payment now = do
  outcome ← catch_mismatch (fold_found payment now)
  resolved payment now outcome

-- The provider holds nothing for the intent.
unfoldable pub found_nothing : PaymentProvider → Moment → Action Session DispatchResult
found_nothing provider now = do
  intent ← gets (λ s. s.intent)
  if is_some intent.provider_payment_id
      then linked_unresolved now
      else (if is_some intent.provider_create_fenced_at
            && not provider.create_retries_are_idempotent
          then fenced_unresolved now
          else resolve_no_provider_payment now)
