-- ===== src/Payment/Executor/Moves.antt =====
-- How the actions of the executor may change the intent, and which of them create no payment.
use pactra.Base.{
  ℕ, Text, Moment, ◌+◌, ◌≡◌, refl, ◌∙◌, true, Option, none, some, List, [], ◌∷◌, ◌++◌, arith,
  Bool-cases, inl, inr,
}
use pactra.Domain.{ReasonCode, EventType, Payload, MissionState, Value}
use pactra.Action.{Action, ◌>>=◌}
use pactra.Action.Follows.{IsPreorder, Follows}
use pactra.Kernel.Authorization.Rows.{Store}
use pactra.Payment.State.{PaymentIntentState, created, can_transition, assert_payment_transition}
use pactra.Payment.State.Reach.{Reach, here, next}
use pactra.Payment.Rows.{PaymentIntentRow, OutboxEventRow, OutboxEventType}
use pactra.Payment.Held
use pactra.Payment.Executor.Session.{
  ProviderCall, get_payment, create_payment, Session, hold, enqueue, reschedule, kernel,
  update_intent, update_event, record_call, append_event, enqueue_reconciliation, complete_event,
  apply_mission_state, apply_payment_transition,
}

-- The columns that say what is to be paid, and to whom.
abbrev pub columns : PaymentIntentRow → PaymentIntentRow
columns i = record i {
  provider_payment_id = none;
  provider_order_id = none;
  provider_transaction_id = none;
  provider_receipt = none;
  provider_status = none;
  provider_attempts = none;
  provider_create_fenced_at = none;
  provider_ambiguity_observed_at = none;
  state = created;
  attempts = 0;
  last_reason_code = none;
}

pub record RowMoves (i j : PaymentIntentRow) : Type 0 where
  pub same : columns j ≡ columns i
  pub path : Reach i.state j.state
  pub fence :
      (at : Moment) → i.provider_create_fenced_at ≡ some at → j.provider_create_fenced_at ≡ some at
  pub ambiguity :
      (at : Moment)
      → i.provider_ambiguity_observed_at ≡ some at
      → j.provider_ambiguity_observed_at ≡ some at
  pub linked : (k : Text) → i.provider_payment_id ≡ some k → j.provider_payment_id ≡ some k

Reach-trans : {s t u : PaymentIntentState} → Reach s t → Reach t u → Reach s u
Reach-trans p here = p
Reach-trans p (next q k) = next (Reach-trans p q) k

pub RowMoves-refl : (i : PaymentIntentRow) → RowMoves i i
RowMoves-refl i = record {
  same = refl;
  path = here;
  fence = λ a h. h;
  ambiguity = λ a h. h;
  linked = λ k h. h;
}

pub RowMoves-trans : (i j k : PaymentIntentRow) → RowMoves i j → RowMoves j k → RowMoves i k
RowMoves-trans i j k p q = record {
  same = q.same ∙ p.same;
  path = Reach-trans p.path q.path;
  fence = λ a h. q.fence a (p.fence a h);
  ambiguity = λ a h. q.ambiguity a (p.ambiguity a h);
  linked = λ a h. q.linked a (p.linked a h);
}

-- How many payments were asked for.
abbrev pub creates : List ProviderCall → ℕ
creates [] = 0
creates (get_payment reference key ∷ calls) = creates calls
creates (create_payment request ∷ calls) = 1 + creates calls

-- The intent moves along permitted transitions, and no payment is created.
pub record Keeps (s t : Session) : Type 0 where
  pub moves : RowMoves s.intent t.intent
  pub silent : creates t.calls ≡ creates s.calls

pub Keeps-IsPreorder : IsPreorder Keeps
Keeps-IsPreorder = record {
  reflexive = λ s. record { moves = RowMoves-refl s.intent; silent = refl };
  transitive = λ s t u p q. record {
    moves = RowMoves-trans s.intent t.intent u.intent p.moves q.moves;
    silent = q.silent ∙ p.silent;
  };
}

pub update_intent-Keeps :
    (f : PaymentIntentRow → PaymentIntentRow)
    → ((i : PaymentIntentRow) → RowMoves i (f i))
    → Follows Keeps (update_intent f)
unfolding update_intent hold Held.update_intent ◌>>=◌
update_intent-Keeps f h = record { at = λ s. record { moves = h s.intent; silent = refl } }

pub kernel-Keeps : {A : Type 0} (m : Action Store A) → Follows Keeps (kernel m)
unfolding kernel
kernel-Keeps m = record { at = λ s. record { moves = RowMoves-refl s.intent; silent = refl } }

pub update_event-Keeps : (f : OutboxEventRow → OutboxEventRow) → Follows Keeps (update_event f)
unfolding update_event
update_event-Keeps f = record { at = λ s. record { moves = RowMoves-refl s.intent; silent = refl } }

pub append_event-Keeps : (e : EventType) (p : Payload) → Follows Keeps (append_event e p)
unfolding append_event hold Held.append_event ◌>>=◌
append_event-Keeps e p = record {
  at = λ s. record { moves = RowMoves-refl s.intent; silent = refl };
}

pub enqueue-Keeps : (t : OutboxEventType) (now : Moment) → Follows Keeps (enqueue t now)
unfolding enqueue
enqueue-Keeps t now = record { at = λ s. record { moves = RowMoves-refl s.intent; silent = refl } }

pub enqueue_reconciliation-Keeps : (now : Moment) → Follows Keeps (enqueue_reconciliation now)
unfolding enqueue_reconciliation
enqueue_reconciliation-Keeps now = enqueue-Keeps _ now

pub reschedule-Keeps : (detail : Value) (now : Moment) → Follows Keeps (reschedule detail now)
unfolding reschedule update_event ◌>>=◌
reschedule-Keeps detail now = record {
  at = λ s. record { moves = RowMoves-refl s.intent; silent = refl };
}

pub complete_event-Keeps : (now : Moment) → Follows Keeps (complete_event now)
unfolding complete_event
complete_event-Keeps now = record {
  at = λ s. record { moves = RowMoves-refl s.intent; silent = refl };
}

pub apply_mission_state-Keeps : (t : MissionState) → Follows Keeps (apply_mission_state t)
unfolding apply_mission_state hold Held.apply_mission_state ◌>>=◌
apply_mission_state-Keeps t = record {
  at = λ s. record { moves = RowMoves-refl s.intent; silent = refl };
}

creates-get :
    (calls : List ProviderCall) (r : Option Text) (k : Text)
    → creates (calls ++ get_payment r k ∷ []) ≡ creates calls
creates-get [] r k = refl
creates-get (get_payment q j ∷ calls) r k = creates-get calls r k
creates-get (create_payment q ∷ calls) r k = omega (arith, creates-get calls r k)

pub record_call-Keeps : (r : Option Text) (k : Text) → Follows Keeps (record_call (get_payment r k))
unfolding record_call
record_call-Keeps r k = record {
  at = λ s. record { moves = RowMoves-refl s.intent; silent = creates-get s.calls r k };
}

-- A transition that the state machine permits.
pub move_to :
    (i : PaymentIntentRow) (target : PaymentIntentState) (reason : Option ReasonCode)
    → can_transition i.state target ≡ true
    → RowMoves i (record i { state = target; last_reason_code = reason })
move_to i target reason h = record {
  same = refl;
  path = next here h;
  fence = λ a e. e;
  ambiguity = λ a e. e;
  linked = λ k e. e;
}

pub apply_payment_transition-Keeps :
    (target : PaymentIntentState) (e : EventType) (p : Payload) (reason : Option ReasonCode)
    → Follows Keeps (apply_payment_transition target e p reason)
unfolding apply_payment_transition hold Held.apply_payment_transition Held.update_intent
    Held.append_event ◌>>=◌ assert_payment_transition
apply_payment_transition-Keeps target e p reason = record {
  at = λ s. elim (Bool-cases (can_transition s.intent.state target)) [
    | inl permitted ↦
        rw permitted (record { moves = move_to s.intent target reason permitted; silent = refl })
    | inr illegal ↦ rw illegal (Keeps-IsPreorder.reflexive s)
  ];
}
