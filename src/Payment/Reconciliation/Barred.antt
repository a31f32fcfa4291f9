-- ===== src/Payment/Reconciliation/Barred.antt =====
-- The create fence under reconciliation: what is behind a fence is not queued for creation again.
use pactra.Base.{Text, Moment, ℕ, ◌≡◌, ◌≢◌, Bool, true, Option, none, some, is_some, arith, ◌+◌}
use pactra.Domain.{ReasonCode, EventType, Payload}
use pactra.Action.{Action}
use pactra.Action.Follows.{IsPreorder, Follows, Follows-bind, Follows-when, follows_rules}
use pactra.Payment.State.{PaymentIntentState, failed_retryable}
use pactra.Payment.Rows.{PaymentIntentRow, ProviderPayment}
use pactra.Payment.Executor.Session.{Session, update_intent, apply_payment_transition}
use pactra.Payment.Executor.Apply.{
  link_provider_payment, settle, apply_provider_payment, note_status, note_attempts,
}
use pactra.Payment.Executor.Uncertain.{
  remember_provider_ambiguity, requeue_retryable, record_payment_attempt,
}
use pactra.Payment.Executor.Recover.{catch_mismatch}
use pactra.Payment.Executor.Same.{
  On, Same, On-IsPreorder, Same-On, Same-IsPreorder, update_intent-On, apply_payment_transition-On,
  assign_once-On, same_rules, verify_intent_authorization-Same, validate_provider_route-Same,
  validate_provider_payment-Same, enforce_registered-Same, already_terminal-Same,
  assert_payment_transition-Same,
}

-- A fence that is taken stays taken, and behind it nothing becomes retryable that was not.
abbrev pub Barred : PaymentIntentRow → PaymentIntentRow → Type 0
Barred i j =
    is_some i.provider_create_fenced_at ≡ true
    → (is_some j.provider_create_fenced_at ≡ true)
      × (j.state ≡ failed_retryable → i.state ≡ failed_retryable)

pub Barred-IsPreorder : IsPreorder Barred
Barred-IsPreorder = record {
  reflexive = λ i h. (h, λ e. e);
  transitive = λ i j k p q h.
      let (taken, back) = p h in let (taken', back') = q taken in (taken', λ e. back (back' e));
}

pub OnBarred : IsPreorder (On Barred)
OnBarred = On-IsPreorder Barred-IsPreorder

pub Same-Barred : {A : Type 0} (m : Action Session A) → Follows Same m → Follows (On Barred) m
Same-Barred = Same-On Barred-IsPreorder

transition :
    (t : PaymentIntentState) (e : EventType) (p : Payload) (r : Option ReasonCode)
    → t ≢ failed_retryable
    → Follows (On Barred) (apply_payment_transition t e p r)
transition t e p r h =
    apply_payment_transition-On Barred-IsPreorder t e p r λ i r e. (e, λ g. absurd (h g))

pub succeeded-Barred :
    (e : EventType) (p : Payload) (r : Option ReasonCode)
    → Follows (On Barred) (apply_payment_transition PaymentIntentState.succeeded e p r)
succeeded-Barred e p r = transition _ e p r (ground arith)

pub failed-Barred :
    (e : EventType) (p : Payload) (r : Option ReasonCode)
    → Follows (On Barred) (apply_payment_transition PaymentIntentState.failed_terminal e p r)
failed-Barred e p r = transition _ e p r (ground arith)

pub pending-Barred :
    (e : EventType) (p : Payload) (r : Option ReasonCode)
    → Follows (On Barred) (apply_payment_transition PaymentIntentState.provider_pending e p r)
pending-Barred e p r = transition _ e p r (ground arith)

pub processing-Barred :
    (e : EventType) (p : Payload) (r : Option ReasonCode)
    → Follows (On Barred) (apply_payment_transition PaymentIntentState.processing e p r)
processing-Barred e p r = transition _ e p r (ground arith)

pub queue_again : (i : PaymentIntentRow) → Barred i (record i { state = PaymentIntentState.queued })
queue_again i e = (e, λ g. absurd (ground arith))

pub count_attempt : (i : PaymentIntentRow) → Barred i (record i { attempts = i.attempts + 1 })
count_attempt i e = (e, λ g. g)

pub note_reason :
    (r : ReasonCode) (i : PaymentIntentRow) → Barred i (record i { last_reason_code = some r })
note_reason r i e = (e, λ g. g)

pub remember-Barred :
    (now : Moment) (i : PaymentIntentRow) → Barred i (remember_provider_ambiguity now i)
unfolding remember_provider_ambiguity
remember-Barred now i e = (e, λ g. g)

pub change-Barred :
    (f : PaymentIntentRow → PaymentIntentRow)
    → ((i : PaymentIntentRow) → Barred i (f i))
    → Follows (On Barred) (update_intent f)
change-Barred = update_intent-On Barred-IsPreorder

pub ruleset barred_rules = (
  follows_rules, OnBarred, Same-Barred, same_rules, verify_intent_authorization-Same,
  validate_provider_route-Same, validate_provider_payment-Same, enforce_registered-Same,
  already_terminal-Same, assert_payment_transition-Same, succeeded-Barred, failed-Barred,
  pending-Barred, processing-Barred, change-Barred, queue_again, count_attempt, note_reason,
  remember-Barred,
)

requeue-Barred : Follows (On Barred) requeue_retryable
unfolding requeue_retryable
requeue-Barred = search barred_rules depth 12

pub record_payment_attempt-Barred : (b r : Bool) → Follows (On Barred) (record_payment_attempt b r)
unfolding record_payment_attempt
record_payment_attempt-Barred b r = search (barred_rules, requeue-Barred) depth 14

pub caught-Barred :
    {A : Type 0} (m : Action Session A)
    → Follows (On Barred) m
    → Follows (On Barred) (catch_mismatch m)
unfolding catch_mismatch
caught-Barred m k = record { at = k.at }

note_status-Barred : (v : Option Text) (i : PaymentIntentRow) → Barred i (note_status v i)
unfolding note_status
note_status-Barred none i e = (e, λ g. g)
note_status-Barred (some v) i e = (e, λ g. g)

note_attempts-Barred : (v : Option ℕ) (i : PaymentIntentRow) → Barred i (note_attempts v i)
unfolding note_attempts
note_attempts-Barred none i e = (e, λ g. g)
note_attempts-Barred (some v) i e = (e, λ g. g)

link_provider_payment-Barred : (p : ProviderPayment) → Follows (On Barred) (link_provider_payment p)
unfolding link_provider_payment
link_provider_payment-Barred p =
    let once = assign_once-On Barred-IsPreorder in
    Follows-bind OnBarred _ _ (once _ _ _ λ i v e. (e, λ g. g)) λ _.
      Follows-bind OnBarred _ _ (once _ _ _ λ i v e. (e, λ g. g)) λ _.
        Follows-bind OnBarred _ _ (once _ _ _ λ i v e. (e, λ g. g)) λ _.
          Follows-bind OnBarred _ _ (Follows-when OnBarred _ _ (once _ _ _ λ i v e. (e, λ g. g)))
            λ _.
              Follows-bind OnBarred _ _ (change-Barred _ (note_status-Barred p.provider_status))
                λ _. change-Barred _ (note_attempts-Barred p.provider_attempts)

settle-Barred :
    (t : PaymentIntentState) (p : ProviderPayment) (now : Moment)
    → Follows (On Barred) (settle t p now)
unfolding settle
settle-Barred PaymentIntentState.succeeded p now = search barred_rules depth 10
settle-Barred PaymentIntentState.failed_terminal p now = search barred_rules depth 10
settle-Barred _ p now = search barred_rules depth 10

pub apply_provider_payment-Barred :
    (p : ProviderPayment) (now : Moment) → Follows (On Barred) (apply_provider_payment p now)
unfolding apply_provider_payment
apply_provider_payment-Barred p now =
    search (barred_rules, link_provider_payment-Barred, settle-Barred) depth 14
