-- ===== src/Payment/Held.antt =====
-- A payment intent under its row lock with its mission, and the changes that the executor and the
-- webhooks share (services/payment_executor/executor.py).
use pactra.Base.{⊤, Option, none, some, [], ◌∷◌, ◌++◌, if◌then◌else◌}
use pactra.Domain.{ReasonCode, MissionState, EventType, Payload, Value, opt_reason}
use pactra.Action.{Action, gets, modify, ◌>>=◌, ◌>>◌}
use pactra.Mission
use pactra.Kernel.Authorization.Rows.{Store}
use pactra.Payment.State.{PaymentIntentState, assert_payment_transition, state_word}
use pactra.Payment.Rows.{PaymentIntentRow}

pub record Held : Type 0 where
  pub store : Store
  pub intent : PaymentIntentRow
  pub mission : Option MissionState

unfoldable pub update_intent : (PaymentIntentRow → PaymentIntentRow) → Action Held ⊤
unfolding ◌>>=◌
update_intent f = modify λ s. record s { intent = f s.intent }

-- `append_event` for the intent's mission, with the executor as the actor.
unfoldable pub append_event : EventType → Payload → Action Held ⊤
unfolding ◌>>=◌
append_event event_type payload = modify λ s. record s {
  store = record s.store {
    audit =
        s.store.audit
        ++ record {
          mission_id = s.intent.mission_id;
          event_type = event_type;
          actor = "payment-executor";
          payload = payload;
        }
          ∷ [];
  };
}

-- `apply_mission_state`: an illegal move is skipped.
unfoldable pub moved : MissionState → Option MissionState → Option MissionState
moved target none = none
moved target (some state) = if Mission.can_transition state target then some target else some state

unfoldable pub apply_mission_state : MissionState → Action Held ⊤
unfolding ◌>>=◌ moved Mission.can_transition
apply_mission_state target = modify λ s. record s { mission = moved target s.mission }

-- `apply_payment_transition`
unfoldable pub apply_payment_transition :
    PaymentIntentState → EventType → Payload → Option ReasonCode → Action Held ⊤
unfolding update_intent append_event assert_payment_transition
apply_payment_transition target event_type payload reason_code = do
  intent ← gets (λ s. s.intent)
  assert_payment_transition intent.state target
  update_intent (λ i. record i { state = target; last_reason_code = reason_code })
  append_event event_type (
      ("payment_intent_id", Value.text intent.id)
        ∷ ("state", Value.word (state_word target))
        ∷ payload
      ++ ("reason_code", opt_reason reason_code) ∷ [])
