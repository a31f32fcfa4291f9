-- ===== src/Payment/Executor/Same.antt =====
-- Relations between the intents before and after an action of the executor, and the actions that
-- leave the intent alone.
use pactra.Base.{
  Text, Moment, ◌≡◌, refl, ◌∙◌, Bool, Option, none, some, Bool-cases, Option-cases, inl, inr,
}
use pactra.Domain.{ReasonCode, EventType, Payload, MissionState, Value}
use pactra.Action.{Action, ◌>>=◌}
use pactra.Action.Follows.{IsPreorder, Follows, follows_rules}
use pactra.Kernel.Capability.{CapabilitySet, Capability, enforce_registered}
use pactra.Kernel.Transaction.{Crypto}
use pactra.Kernel.Authorization.Rows.{Store}
use pactra.Payment.State.{PaymentIntentState, can_transition, assert_payment_transition}
use pactra.Payment.Rows.{PaymentIntentRow, OutboxEventType, ProviderPayment, PaymentProvider}
use pactra.Payment.Held
use pactra.Payment.Executor.Session.{
  ProviderCall, Session, hold, enqueue, reschedule, kernel, update_intent, update_event,
  record_call, append_event, complete_event, apply_mission_state, apply_payment_transition,
  verify_intent_authorization, validate_provider_route,
}
use pactra.Payment.Executor.Apply.{assign_once, validate_provider_payment}
use pactra.Payment.Executor.Dispatch.{already_terminal}

-- A relation between intents, as one between sessions.
pub record On (R : PaymentIntentRow → PaymentIntentRow → Type 0) (s t : Session) : Type 0 where
  pub rows : R s.intent t.intent

abbrev pub Same : Session → Session → Type 0
Same = On (λ i j. j ≡ i)

module _ {R : PaymentIntentRow → PaymentIntentRow → Type 0} (o : IsPreorder R) where
  pub On-IsPreorder : IsPreorder (On R)
  On-IsPreorder = record {
    reflexive = λ s. record { rows = o.reflexive s.intent };
    transitive =
        λ s t u p q. record { rows = o.transitive s.intent t.intent u.intent p.rows q.rows };
  }

  pub Same-On : {A : Type 0} (m : Action Session A) → Follows Same m → Follows (On R) m
  Same-On m k = record { at = λ s. record { rows = rw (k.at s).rows (o.reflexive s.intent) } }

  pub update_intent-On :
      (f : PaymentIntentRow → PaymentIntentRow)
      → ((i : PaymentIntentRow) → R i (f i))
      → Follows (On R) (update_intent f)
  unfolding update_intent hold Held.update_intent ◌>>=◌
  update_intent-On f h = record { at = λ s. record { rows = h s.intent } }

  pub apply_payment_transition-On :
      (target : PaymentIntentState) (e : EventType) (p : Payload) (reason : Option ReasonCode)
      → ((i : PaymentIntentRow) (r : Option ReasonCode)
          → R i (record i { state = target; last_reason_code = r }))
      → Follows (On R) (apply_payment_transition target e p reason)
  unfolding apply_payment_transition hold Held.apply_payment_transition Held.update_intent
      Held.append_event ◌>>=◌ assert_payment_transition
  apply_payment_transition-On target e p reason h = record {
    at = λ s. elim (Bool-cases (can_transition s.intent.state target)) [
      | inl permitted ↦ rw permitted (record { rows = h s.intent reason })
      | inr illegal ↦ rw illegal (record { rows = o.reflexive s.intent })
    ];
  }

  pub assign_once-On :
      (read : PaymentIntentRow → Option Text) (write : Text → PaymentIntentRow → PaymentIntentRow)
      (value : Option Text)
      → ((i : PaymentIntentRow) (v : Text) → R i (write v i))
      → Follows (On R) (assign_once read write value)
  unfolding assign_once ◌>>=◌ update_intent hold Held.update_intent
  assign_once-On read write none h = record { at = λ s. record { rows = o.reflexive s.intent } }
  assign_once-On read write (some v) h = record {
    at = λ s. elim (Option-cases (read s.intent)) [
      | inl absent ↦ rw absent (record { rows = h s.intent v })
      | inr (old, present) ↦ rw present (record { rows = o.reflexive s.intent })
    ];
  }

pub equal-IsPreorder : {A : Type 0} → IsPreorder (λ (i j : A). j ≡ i)
equal-IsPreorder = record { reflexive = λ i. refl; transitive = λ i j k p q. q ∙ p }

pub Same-IsPreorder : IsPreorder Same
Same-IsPreorder = On-IsPreorder equal-IsPreorder

pub kernel-Same : {A : Type 0} (m : Action Store A) → Follows Same (kernel m)
unfolding kernel
kernel-Same m = record { at = λ s. record { rows = refl } }

pub append_event-Same : (e : EventType) (p : Payload) → Follows Same (append_event e p)
unfolding append_event hold Held.append_event ◌>>=◌
append_event-Same e p = record { at = λ s. record { rows = refl } }

pub enqueue-Same : (t : OutboxEventType) (now : Moment) → Follows Same (enqueue t now)
unfolding enqueue
enqueue-Same t now = record { at = λ s. record { rows = refl } }

pub reschedule-Same : (detail : Value) (now : Moment) → Follows Same (reschedule detail now)
unfolding reschedule update_event ◌>>=◌
reschedule-Same detail now = record { at = λ s. record { rows = refl } }

pub complete_event-Same : (now : Moment) → Follows Same (complete_event now)
unfolding complete_event update_event
complete_event-Same now = record { at = λ s. record { rows = refl } }

pub apply_mission_state-Same : (t : MissionState) → Follows Same (apply_mission_state t)
unfolding apply_mission_state hold Held.apply_mission_state ◌>>=◌
apply_mission_state-Same t = record { at = λ s. record { rows = refl } }

pub record_call-Same : (call : ProviderCall) → Follows Same (record_call call)
unfolding record_call
record_call-Same call = record { at = λ s. record { rows = refl } }

pub ruleset same_rules = (
  follows_rules, Same-IsPreorder, kernel-Same, append_event-Same, enqueue-Same, reschedule-Same,
  complete_event-Same, apply_mission_state-Same, record_call-Same,
)

pub verify_intent_authorization-Same :
    (c : Crypto) (now : Moment) → Follows Same (verify_intent_authorization c now)
unfolding verify_intent_authorization
verify_intent_authorization-Same c now = search same_rules depth 12

pub validate_provider_route-Same : (p : PaymentProvider) → Follows Same (validate_provider_route p)
unfolding validate_provider_route
validate_provider_route-Same p = search same_rules

pub validate_provider_payment-Same :
    (b : Bool) (p : ProviderPayment) → Follows Same (validate_provider_payment b p)
unfolding validate_provider_payment
validate_provider_payment-Same b p = search same_rules

pub enforce_registered-Same :
    (caps : CapabilitySet) (k : Capability) → Follows Same (enforce_registered caps k)
unfolding enforce_registered
enforce_registered-Same caps k = search same_rules

pub already_terminal-Same : (now : Moment) → Follows Same (already_terminal now)
unfolding already_terminal
already_terminal-Same now = search same_rules depth 8

pub assert_payment_transition-Same :
    (s t : PaymentIntentState) → Follows Same (assert_payment_transition s t)
unfolding assert_payment_transition
assert_payment_transition-Same s t = search same_rules
