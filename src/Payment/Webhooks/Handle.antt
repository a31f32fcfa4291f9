-- ===== src/Payment/Webhooks/Handle.antt =====
-- `handle_webhook` (services/payment_executor/webhooks.py).
use pactra.Base.{
  ℕ, Text, Moment, ◌+◌, Bool, true, false, not, ◌&&◌, Option, none, some, [], ◌∷◌, ◌++◌, ◌==◌,
  is_some, find, update_where, if◌then◌else◌,
}
use pactra.Domain.{Failure, ReasonCode, EventType, Value}
use pactra.Action.{
  Result, ok, raised, Action, pure, lift, gets, or_raise, modify, raise_if, ◌>>=◌, ◌>>◌,
}
use pactra.Payment.State.{succeeded, state_eq, state_word}
use pactra.Payment.Rows.{PaymentIntentRow}
use pactra.Payment.Tables.{Tables, is_intent, is_mission, state_of, set_mission}
use pactra.Payment.Webhooks.Events.{
  webhook_type_to_state, VerifiedWebhookEvent, Verification, verified, refused, WebhookProvider,
  same_event,
}
use pactra.Payment.Webhooks.Deliver.{Delivery, WebhookOutcome, deliver}

-- `_find_intent`; the reference is unique in its table.
abbrev pub is_linked : VerifiedWebhookEvent → PaymentIntentRow → Bool
is_linked event intent =
    intent.provider == event.provider
    && elim intent.provider_payment_id [ none ↦ false | some k ↦ k == event.provider_payment_id ]

abbrev claims : Option ℕ → ℕ → Bool
claims none held = true
claims (some value) held = value == held

abbrev agree : Option Text → Option Text → Bool
agree none held = true
agree (some value) none = true
agree (some value) (some held) = value == held

-- A settled transaction must be named again.
abbrev repeats : Option Text → Option Text → Bool
repeats value none = true
repeats none (some held) = false
repeats (some value) (some held) = value == held

-- Whether `evidence_mismatches` stays empty.
unfoldable pub evidence_matches : VerifiedWebhookEvent → PaymentIntentRow → Bool
unfolding webhook_type_to_state
evidence_matches event intent =
    claims event.amount_inr intent.amount_inr
    && claims event.currency intent.currency
    && agree event.provider_order_id intent.provider_order_id
    && (if state_eq (webhook_type_to_state event.event_type) succeeded
        then repeats event.provider_transaction_id intent.provider_transaction_id
        else true)

abbrev pub checked : Verification → Result VerifiedWebhookEvent
checked (verified event) = ok event
checked (refused reason_code) = raised (Failure.webhook_rejected reason_code)

-- What is done under the lock of one intent, in the tables.
unfoldable pub on_intent : {A : Type 0} → PaymentIntentRow → Action Delivery A → Action Tables A
on_intent intent m t =
    let (r, d) = m (record {
      held = record {
        store = t.store;
        intent = intent;
        mission = state_of (find (is_mission intent.mission_id) t.missions);
      };
      webhook_events = t.webhook_events;
    }) in
    (
      r,
      record t {
        store = d.held.store;
        intents = update_where (is_intent intent.id) (λ _. d.held.intent) t.intents;
        missions = set_mission intent.mission_id d.held.mission t.missions;
        webhook_events = d.webhook_events;
      },
    )

-- The insert failed on the unique index.
unfoldable pub duplicate_delivery :
    PaymentIntentRow → VerifiedWebhookEvent → Action Tables WebhookOutcome
unfolding ◌>>=◌
duplicate_delivery intent event = do
  modify (λ t. record t {
    store = record t.store {
      audit =
          t.store.audit
          ++ record {
            mission_id = intent.mission_id;
            event_type = EventType.duplicate_webhook_ignored;
            actor = "payment-executor";
            payload =
                ("payment_intent_id", Value.text intent.id)
                ∷ ("reason_code", Value.reason ReasonCode.webhook_duplicate)
                ∷ ("provider_event_id", Value.text event.provider_event_id)
                ∷ ("state", Value.word (state_word intent.state))
                ∷ [];
          }
            ∷ [];
    };
  })
  pure (record {
    accepted = true;
    applied = false;
    reason_code = some ReasonCode.webhook_duplicate;
    state = some intent.state;
    payment_intent_id = some intent.id;
  })

unfoldable pub fresh : Action Tables Text
unfolding ◌>>=◌
fresh = do
  id ← gets (λ t. t.next_uuid)
  modify (λ t. record t { next_uuid = t.next_uuid + 1 })
  pure id

unfoldable pub accept :
    PaymentIntentRow → VerifiedWebhookEvent → Moment → Action Tables WebhookOutcome
accept intent event moment = do
  seen ← gets (λ t. is_some (find (same_event event) t.webhook_events))
  if seen
      then duplicate_delivery intent event
      else (do stored_id ← fresh; on_intent intent (deliver stored_id event moment))

-- What follows the verification.
unfoldable pub admit :
    WebhookProvider → VerifiedWebhookEvent → Moment → Action Tables WebhookOutcome
admit provider event moment = do
  raise_if (not (event.provider == provider.name))
      (Failure.webhook_rejected ReasonCode.provider_response_mismatch)
  found ← gets (λ t. find (is_linked event) t.intents)
  intent ← or_raise found (Failure.webhook_rejected ReasonCode.webhook_unknown_payment)
  raise_if (not (evidence_matches event intent))
      (Failure.webhook_rejected ReasonCode.provider_response_mismatch)
  accept intent event moment

unfoldable pub handle_webhook :
    WebhookProvider → Text → Text → Option Text → Moment → Action Tables WebhookOutcome
handle_webhook provider body signature provider_event_id moment = do
  event ← lift (checked (provider.verify_webhook body signature provider_event_id))
  admit provider event moment
