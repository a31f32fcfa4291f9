-- ===== src/Payment/Worker/Process.antt =====
-- `process_claimed_event` (services/payment_executor/worker.py): the handlers of the executor over
-- the tables, with the commit in the middle of each. `meanwhile` is what other transactions commit
-- while a handler has given up its row lock.
use pactra.Base.{Text, Moment, none, some, [], ◌++◌, ◌==◌, Bool, find, update_where}
use pactra.Domain.{Failure}
use pactra.Action.{Result, ok, raised, Action}
use pactra.Kernel.Capability.{CapabilitySet}
use pactra.Kernel.Transaction.{Crypto}
use pactra.Payment.Rows.{
  PaymentIntentRow, OutboxEventRow, OutboxEventType, payment_create_requested,
  payment_reconcile_requested, PaymentProvider,
}
use pactra.Payment.Tables.{Tables, is_intent, is_mission, state_of, set_mission}
use pactra.Payment.Executor.Session.{Session, DispatchResult}
use pactra.Payment.Executor.Dispatch.{Opening, finished, committed, open_dispatch, behind_fence}
use pactra.Payment.Reconciliation.Reconcile.{Pause, done, shut, open_reconcile, behind_shut_fence}

abbrev pub is_event : Text → OutboxEventRow → Bool
is_event id event = event.id == id

-- The session of a handler, at an intent and a claimed event of the tables.
abbrev pub session_at : Tables → PaymentIntentRow → OutboxEventRow → Session
session_at t intent event = record {
  store = t.store;
  intent = intent;
  event = event;
  mission = state_of (find (is_mission intent.mission_id) t.missions);
  outbox = [];
  next_uuid = t.next_uuid;
  calls = [];
}

-- The commit of the session.
unfoldable pub commit : Session → Tables → Tables
commit s t = record t {
  store = s.store;
  missions = set_mission s.intent.mission_id s.mission t.missions;
  intents = update_where (is_intent s.intent.id) (λ _. s.intent) t.intents;
  outbox = update_where (is_event s.event.id) (λ _. s.event) t.outbox ++ s.outbox;
  next_uuid = s.next_uuid;
}

-- A commit, or the rollback of what raised.
unfoldable pub close_work : {A : Type 0} → Tables → Result A × Session → Result A × Tables
close_work t (ok a, s) = (ok a, commit s t)
close_work t (raised e, s) = (raised e, t)

-- A handler on the intent of an event, with both read afresh.
unfoldable pub work_on : {A : Type 0} → Text → Action Session A → OutboxEventRow → Action Tables A
unfolding close_work
work_on intent_id handler event t = elim (find (is_intent intent_id) t.intents) [
  | none ↦ (raised Failure.value_error, t)
  | some intent ↦ close_work t (handler (session_at t intent event))
]

module _ (c : Crypto) (provider : PaymentProvider) (meanwhile : Tables → Tables)
    (now : Moment) where
  unfoldable pub after_opening :
      OutboxEventRow → Result Opening × Tables → Result DispatchResult × Tables
  after_opening event (raised e, t) = (raised e, t)
  after_opening event (ok (finished r), t) = (ok r, t)
  after_opening event (ok (committed acquired), t) =
      work_on event.payment_intent_id (behind_fence c provider acquired now) event (meanwhile t)

  unfoldable pub after_pause :
      OutboxEventRow → Result Pause × Tables → Result DispatchResult × Tables
  after_pause event (raised e, t) = (raised e, t)
  after_pause event (ok (done r), t) = (ok r, t)
  after_pause event (ok shut, t) =
      work_on event.payment_intent_id (behind_shut_fence c provider now) event (meanwhile t)

  unfoldable pub handle :
      CapabilitySet → OutboxEventRow → OutboxEventType → Action Tables DispatchResult
  unfolding after_opening after_pause
  handle capabilities event payment_create_requested t =
      after_opening event
        (work_on event.payment_intent_id (open_dispatch c provider capabilities now) event t)
  handle capabilities event payment_reconcile_requested t =
      after_pause event
        (work_on event.payment_intent_id (open_reconcile c provider capabilities now) event t)

  unfoldable pub process_claimed_event :
      CapabilitySet → OutboxEventRow → Action Tables DispatchResult
  unfolding handle
  process_claimed_event capabilities event = handle capabilities event event.event_type
