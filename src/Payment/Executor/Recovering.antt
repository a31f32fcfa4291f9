-- ===== src/Payment/Executor/Recovering.antt =====
-- Marking an intent uncertain, recording an attempt and recovering behind a fence.
use pactra.Base.{Moment, ◌+◌, refl, Bool, Option, none, some, Bool-cases, inl, inr}
use pactra.Domain.{ReasonCode, Value}
use pactra.Action.{Action, ◌>>=◌}
use pactra.Action.Follows.{Follows}
use pactra.Kernel.Transaction.{Crypto}
use pactra.Payment.State.{
  PaymentIntentState, can_transition, queued, failed_retryable, state_eq, assert_payment_transition,
}
use pactra.Payment.State.Reach.{here, next}
use pactra.Payment.Rows.{PaymentIntentRow, ProviderPayment, Answer, answer, fails, PaymentProvider}
use pactra.Payment.Executor.Session.{Session, update_intent}
use pactra.Payment.Executor.Uncertain.{
  remember_provider_ambiguity, mark_uncertain, requeue_retryable, record_payment_attempt,
}
use pactra.Payment.Executor.Recover.{
  catch_mismatch, give_up, adopt, finish_existing_before_create, look_up, recovered,
  recover_fenced_create,
}
use pactra.Payment.Executor.Moves.{RowMoves, Keeps, Keeps-IsPreorder, update_intent-Keeps}
use pactra.Payment.Executor.Keeping.{
  keeps_rules, verify_intent_authorization-Keeps, validate_provider_payment-Keeps,
  apply_provider_payment-Keeps,
}

-- Remembering an ambiguity keeps the first one.
pub remember-moves :
    (now : Moment) (i : PaymentIntentRow) → RowMoves i (remember_provider_ambiguity now i)
unfolding remember_provider_ambiguity
remember-moves now i = record {
  same = refl;
  path = here;
  fence = λ a e. e;
  ambiguity = λ a e. rw e;
  linked = λ k e. e;
}

pub reason_moves :
    (r : ReasonCode) (i : PaymentIntentRow) → RowMoves i (record i { last_reason_code = some r })
reason_moves r i = record {
  same = refl;
  path = here;
  fence = λ a e. e;
  ambiguity = λ a e. e;
  linked = λ k e. e;
}

pub mark_uncertain-Keeps :
    (detail : Value) (now : Moment) (r : ReasonCode) (t : Bool)
    → Follows Keeps (mark_uncertain detail now r t)
unfolding mark_uncertain
mark_uncertain-Keeps detail now r t =
    search (keeps_rules, update_intent-Keeps, remember-moves, reason_moves) depth 14

pub requeue_retryable-Keeps : Follows Keeps requeue_retryable
unfolding requeue_retryable ◌>>=◌ update_intent assert_payment_transition
requeue_retryable-Keeps = record {
  at = λ s. elim (Bool-cases (state_eq s.intent.state failed_retryable)) [
    | inl retryable ↦ rw retryable (elim (Bool-cases (can_transition s.intent.state queued)) [
      | inl permitted ↦ rw permitted (record {
        moves = record {
          same = refl;
          path = next here permitted;
          fence = λ a e. e;
          ambiguity = λ a e. e;
          linked = λ k e. e;
        };
        silent = refl;
      })
      | inr illegal ↦ rw illegal (Keeps-IsPreorder.reflexive s)
    ])
    | inr other ↦ rw other (Keeps-IsPreorder.reflexive s)
  ];
}

attempts_moves : (i : PaymentIntentRow) → RowMoves i (record i { attempts = i.attempts + 1 })
attempts_moves i = record {
  same = refl;
  path = here;
  fence = λ a e. e;
  ambiguity = λ a e. e;
  linked = λ k e. e;
}

pub record_payment_attempt-Keeps : (b r : Bool) → Follows Keeps (record_payment_attempt b r)
unfolding record_payment_attempt
record_payment_attempt-Keeps b r =
    search (keeps_rules, requeue_retryable-Keeps, update_intent-Keeps, attempts_moves) depth 14

pub catch_mismatch-Keeps :
    {A : Type 0} (m : Action Session A) → Follows Keeps m → Follows Keeps (catch_mismatch m)
unfolding catch_mismatch
catch_mismatch-Keeps m k = record { at = k.at }

pub give_up-Keeps :
    (detail : Value) (now : Moment) (r : ReasonCode) (t : Bool)
    → Follows Keeps (give_up detail now r t)
unfolding give_up
give_up-Keeps detail now r t = search (keeps_rules, mark_uncertain-Keeps) depth 8

adopt-Keeps :
    (p : ProviderPayment) (now : Moment) (o : Option PaymentIntentState)
    → Follows Keeps (adopt p now o)
unfolding adopt
adopt-Keeps p now none = give_up-Keeps _ now _ _
adopt-Keeps p now (some st) = search keeps_rules depth 12

pub finish_existing_before_create-Keeps :
    (p : ProviderPayment) (now : Moment) → Follows Keeps (finish_existing_before_create p now)
unfolding finish_existing_before_create
finish_existing_before_create-Keeps p now =
    search
      (
        keeps_rules, give_up-Keeps, adopt-Keeps, catch_mismatch-Keeps,
        validate_provider_payment-Keeps, record_payment_attempt-Keeps, apply_provider_payment-Keeps,
      )
      depth 14

pub look_up-Keeps : (p : PaymentProvider) → Follows Keeps (look_up p)
unfolding look_up
look_up-Keeps p = search keeps_rules depth 8

recovered-Keeps :
    (now : Moment) (a : Answer (Option ProviderPayment)) → Follows Keeps (recovered now a)
unfolding recovered
recovered-Keeps now (fails e) = give_up-Keeps _ now _ _
recovered-Keeps now (answer (some p)) = finish_existing_before_create-Keeps p now
recovered-Keeps now (answer none) = give_up-Keeps _ now _ _

-- Recovery behind a fence that another call has taken creates nothing, whatever the provider
-- answers.
pub recover_fenced_create-Keeps :
    (c : Crypto) (p : PaymentProvider) (now : Moment)
    → Follows Keeps (recover_fenced_create c p now)
unfolding recover_fenced_create
recover_fenced_create-Keeps c p now =
    search (keeps_rules, verify_intent_authorization-Keeps, look_up-Keeps, recovered-Keeps) depth 10
