-- ===== src/Payment/Webhooks/Deliver.antt =====
-- The application of a verified event to the intent that it names, once it has won the insert
-- (`handle_webhook` and `_store_provider_evidence` of services/payment_executor/webhooks.py).
use pactra.Base.{
  ⊤, ℕ, Text, Moment, max, Bool, true, false, not, ◌&&◌, ◌||◌, Option, none, some, List, [], ◌∷◌,
  ◌++◌, ◌==◌, is_some, update_where, if◌then◌else◌,
}
use pactra.Domain.{
  ReasonCode, MissionState, EventType, Payload, Value, opt_text, opt_number, opt_reason,
}
use pactra.Action.{Action, pure, gets, modify, ◌>>=◌, ◌>>◌}
use pactra.Payment.Held
use pactra.Payment.Held.{Held}
use pactra.Payment.State.{
  PaymentIntentState, provider_pending, succeeded, state_eq, state_word, can_transition,
  is_terminal,
}
use pactra.Payment.Rows.{PaymentIntentRow}
use pactra.Payment.Webhooks.Events.{
  WebhookEventType, webhook_type_to_state, type_word, VerifiedWebhookEvent, WebhookEventRow,
}

-- The intent under its lock, and the table of the events received.
pub record Delivery : Type 0 where
  pub held : Held
  pub webhook_events : List WebhookEventRow

pub record WebhookOutcome : Type 0 where
  pub accepted : Bool
  pub applied : Bool
  pub reason_code : Option ReasonCode
  pub state : Option PaymentIntentState
  pub payment_intent_id : Option Text

unfoldable pub holding : {A : Type 0} → Action Held A → Action Delivery A
holding m d = let (r, h) = m d.held in (r, record d { held = h })

-- `stored_event.processed_at = moment; stored_event.applied_state = …`
abbrev pub processed : Moment → Option PaymentIntentState → WebhookEventRow → WebhookEventRow
processed moment applied event = record event {
  processed_at = some moment;
  applied_state = applied;
}

unfoldable pub mark_processed : Text → Moment → Option PaymentIntentState → Action Delivery ⊤
unfolding ◌>>=◌
mark_processed stored_id moment applied = modify λ d. record d {
  webhook_events =
      update_where (λ e. e.id == stored_id) (processed moment applied) d.webhook_events;
}

abbrev outcome : Bool → Option ReasonCode → PaymentIntentState → PaymentIntentRow → WebhookOutcome
outcome applied reason_code state intent = record {
  accepted = true;
  applied = applied;
  reason_code = reason_code;
  state = some state;
  payment_intent_id = some intent.id;
}

-- `_store_provider_evidence`
abbrev pub store_order : Option Text → PaymentIntentRow → PaymentIntentRow
store_order none intent = intent
store_order (some order) intent =
    if is_some intent.provider_order_id
    then intent
    else record intent { provider_order_id = some order }

abbrev pub store_transaction : Bool → Option Text → PaymentIntentRow → PaymentIntentRow
store_transaction settles none intent = intent
store_transaction settles (some transaction) intent =
    if settles then record intent { provider_transaction_id = some transaction } else intent

abbrev pub store_status : Option Text → PaymentIntentRow → PaymentIntentRow
store_status none intent = intent
store_status (some status) intent = record intent { provider_status = some status }

abbrev attempts_or_zero : Option ℕ → ℕ
attempts_or_zero none = 0
attempts_or_zero (some n) = n

abbrev pub store_attempts : Option ℕ → PaymentIntentRow → PaymentIntentRow
store_attempts none intent = intent
store_attempts (some n) intent = record intent {
  provider_attempts = some (max (attempts_or_zero intent.provider_attempts) n);
}

unfoldable pub store_provider_evidence :
    VerifiedWebhookEvent → PaymentIntentState → PaymentIntentRow → PaymentIntentRow
store_provider_evidence event target intent = store_attempts event.provider_attempts (
    store_status event.provider_status (
      store_transaction (state_eq target succeeded) event.provider_transaction_id
        (store_order event.provider_order_id intent)))

abbrev attempt_reason : WebhookEventType → Option ReasonCode
attempt_reason WebhookEventType.payment_attempt_failed =
    some ReasonCode.provider_payment_attempt_failed
attempt_reason _ = none

abbrev event_evidence : VerifiedWebhookEvent → Payload
event_evidence event =
    ("provider", Value.text event.provider)
    ∷ ("provider_payment_id", Value.text event.provider_payment_id)
    ∷ ("provider_order_id", opt_text event.provider_order_id)
    ∷ ("provider_transaction_id", opt_text event.provider_transaction_id)
    ∷ ("provider_status", opt_text event.provider_status)
    ∷ ("provider_attempts", opt_number event.provider_attempts)
    ∷ ("provider_event_id", Value.text event.provider_event_id)
    ∷ ("source", Value.word "webhook")
    ∷ []

-- An ambiguity was observed for the intent: the event settles nothing.
unfoldable pub keep_ambiguous :
    Text → VerifiedWebhookEvent → Moment → Action Delivery WebhookOutcome
keep_ambiguous stored_id event moment = do
  intent ← gets (λ d. d.held.intent)
  holding
      (Held.update_intent (λ i. record i { last_reason_code = some ReasonCode.provider_ambiguity }))
  holding (
      Held.append_event EventType.payment_provider_uncertain (
        ("payment_intent_id", Value.text intent.id)
        ∷ ("state", Value.word (state_word intent.state))
        ∷ ("provider", Value.text event.provider)
        ∷ ("provider_event_id", Value.text event.provider_event_id)
        ∷ ("provider_ambiguity_observed", Value.flag true)
        ∷ ("webhook_applied", Value.flag false)
        ∷ ("manual_recovery_required", Value.flag true)
        ∷ ("reason_code", Value.reason ReasonCode.provider_ambiguity)
        ∷ []))
  mark_processed stored_id moment none
  pure (outcome false (some ReasonCode.provider_ambiguity) intent.state intent)

-- One more observation of a payment that is still open at the provider.
unfoldable pub observe_again : Text → VerifiedWebhookEvent → Moment → Action Delivery WebhookOutcome
unfolding store_provider_evidence webhook_type_to_state
observe_again stored_id event moment = do
  intent ← gets (λ d. d.held.intent)
  holding
      (Held.update_intent (store_provider_evidence event (webhook_type_to_state event.event_type)))
  holding
      (Held.update_intent (λ i. record i { last_reason_code = attempt_reason event.event_type }))
  holding (
      Held.append_event EventType.payment_provider_uncertain (
        ("payment_intent_id", Value.text intent.id)
          ∷ ("state", Value.word (state_word intent.state))
          ∷ event_evidence event
        ++ ("reason_code", opt_reason (attempt_reason event.event_type)) ∷ []))
  mark_processed stored_id moment (some intent.state)
  pure (outcome false (attempt_reason event.event_type) intent.state intent)

-- A transition that the state machine does not permit is not performed.
unfoldable pub ignore_out_of_order :
    Text → VerifiedWebhookEvent → Moment → Action Delivery WebhookOutcome
unfolding is_terminal webhook_type_to_state
ignore_out_of_order stored_id event moment = do
  intent ← gets (λ d. d.held.intent)
  holding (
      Held.append_event EventType.webhook_out_of_order_ignored (
        ("payment_intent_id", Value.text intent.id)
        ∷ ("reason_code", Value.reason ReasonCode.illegal_payment_transition)
        ∷ ("provider_event_id", Value.text event.provider_event_id)
        ∷ ("current_state", Value.word (state_word intent.state))
        ∷ ("requested_state", Value.word (state_word (webhook_type_to_state event.event_type)))
        ∷ ("terminal", Value.flag (is_terminal intent.state))
        ∷ []))
  mark_processed stored_id moment none
  pure (outcome false (some ReasonCode.illegal_payment_transition) intent.state intent)

abbrev settlement_type : PaymentIntentState → EventType
settlement_type PaymentIntentState.succeeded = EventType.payment_succeeded
settlement_type PaymentIntentState.failed_terminal = EventType.payment_failed
settlement_type _ = EventType.payment_provider_uncertain

unfoldable pub move_mission : PaymentIntentState → Action Delivery ⊤
unfolding holding Held.apply_mission_state
move_mission PaymentIntentState.succeeded =
    holding (Held.apply_mission_state MissionState.payment_succeeded)
move_mission PaymentIntentState.failed_terminal =
    holding (Held.apply_mission_state MissionState.payment_failed)
move_mission _ = pure tt

unfoldable pub perform : Text → VerifiedWebhookEvent → Moment → Action Delivery WebhookOutcome
unfolding webhook_type_to_state store_provider_evidence
perform stored_id event moment = do
  intent ← gets (λ d. d.held.intent)
  let target = webhook_type_to_state event.event_type
  holding (Held.update_intent (store_provider_evidence event target))
  holding (
      Held.apply_payment_transition target (settlement_type target) (event_evidence event)
        (attempt_reason event.event_type))
  move_mission target
  mark_processed stored_id moment (some target)
  pure (outcome true none target intent)

-- Whether the state machine stands against the event.
unfoldable pub is_refused : PaymentIntentState → PaymentIntentState → Bool
is_refused current target =
    state_eq current target || is_terminal current || not (can_transition current target)

unfoldable pub apply_event : Text → VerifiedWebhookEvent → Moment → Action Delivery WebhookOutcome
apply_event stored_id event moment = do
  intent ← gets (λ d. d.held.intent)
  let target = webhook_type_to_state event.event_type
  if is_some intent.provider_ambiguity_observed_at
      then keep_ambiguous stored_id event moment
      else (if not (is_refused intent.state target)
          then perform stored_id event moment
          else if state_eq intent.state target && state_eq intent.state provider_pending
          then observe_again stored_id event moment
          else ignore_out_of_order stored_id event moment)

unfoldable pub insert_event : Text → VerifiedWebhookEvent → Text → Moment → Action Delivery ⊤
unfolding ◌>>=◌
insert_event stored_id event intent_id moment = modify λ d. record d {
  webhook_events =
      record {
        id = stored_id;
        provider = event.provider;
        provider_event_id = event.provider_event_id;
        event_type = event.event_type;
        provider_payment_id = event.provider_payment_id;
        provider_transaction_id = event.provider_transaction_id;
        payment_intent_id = intent_id;
        sequence = event.sequence;
        received_at = moment;
        processed_at = none;
        applied_state = none;
      }
      ∷ d.webhook_events;
}

-- The row that is inserted for the event, then the audit of the verified event, then its effect.
unfoldable pub deliver : Text → VerifiedWebhookEvent → Moment → Action Delivery WebhookOutcome
deliver stored_id event moment = do
  intent ← gets (λ d. d.held.intent)
  insert_event stored_id event intent.id moment
  holding (
      Held.append_event EventType.webhook_verified (
        ("payment_intent_id", Value.text intent.id)
        ∷ ("provider", Value.text event.provider)
        ∷ ("provider_event_id", Value.text event.provider_event_id)
        ∷ ("event_type", Value.word (type_word event.event_type))
        ∷ ("sequence", opt_number event.sequence)
        ∷ ("provider_order_id", opt_text event.provider_order_id)
        ∷ ("provider_transaction_id", opt_text event.provider_transaction_id)
        ∷ ("provider_status", opt_text event.provider_status)
        ∷ ("provider_attempts", opt_number event.provider_attempts)
        ∷ []))
  apply_event stored_id event moment
