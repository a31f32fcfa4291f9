-- ===== src/Payment/Worker/Turn.antt =====
-- `run_once` and `drain` (services/payment_executor/worker.py). What other transactions commit
-- between the transactions of one turn is the record `Meanwhile`.
use pactra.Base.{
  ℕ, zero, suc, Text, Moment, Bool, false, not, Option, none, some, List, [], ◌∷◌, ◌==◌, is_none,
  find, update_where, if◌then◌else◌,
}
use pactra.Domain.{Failure, Value}
use pactra.Action.{Result, ok, raised, Action, pure, ◌>>=◌}
use pactra.Kernel.Capability.{capabilities_for, payment_executor}
use pactra.Kernel.Transaction.{Crypto}
use pactra.Payment.Rows.{OutboxEventRow, OutboxEventType, PaymentProvider}
use pactra.Payment.Outbox.{Dialect, claim_next_event, reschedule_event}
use pactra.Payment.Tables.{Tables}
use pactra.Payment.Executor.Session.{DispatchResult}
use pactra.Payment.Worker.Process.{is_event, process_claimed_event}

-- `event_id is None` means the queue was idle.
pub record WorkerOutcome : Type 0 where
  pub event_id : Option Text
  pub event_type : Option OutboxEventType
  pub result : Option DispatchResult

-- During the claim, after its commit, after the commit of a fence, and before the recovery.
pub record Meanwhile : Type 0 where
  pub during_claim : Dialect
  pub after_claim : Tables → Tables
  pub after_fence : Tables → Tables
  pub before_recovery : Tables → Tables

abbrev pub idle : WorkerOutcome
idle = record { event_id = none; event_type = none; result = none }

abbrev pub is_owner : Text → Option Text → Bool
is_owner worker none = false
is_owner worker (some owner) = owner == worker

-- The recovery transaction: the event goes back to the queue, or is dead.
abbrev pub rescheduled : Moment → OutboxEventRow → OutboxEventRow
rescheduled now event = (reschedule_event (Value.message "the handler raised" none) now event).1

unfoldable pub recover : Text → Moment → Tables → Tables
unfolding reschedule_event
recover event_id now t = record t {
  outbox = update_where (is_event event_id) (rescheduled now) t.outbox;
}

module _ (c : Crypto) (provider : PaymentProvider) (meanwhile : Meanwhile) (worker : Text)
    (lease : ℕ) (now : Moment) where
  -- `except Exception`: recover and raise again. The type of an event never changes, so it is the
  -- one read with the claim.
  unfoldable pub finish :
      OutboxEventRow → Result DispatchResult × Tables → Result WorkerOutcome × Tables
  unfolding recover
  finish event (ok r, t) = (
    ok (record { event_id = some event.id; event_type = some event.event_type; result = some r }),
    t,
  )
  finish event (raised e, t) = (raised e, recover event.id now (meanwhile.before_recovery t))

  -- The work session: the event must still be this worker's.
  unfoldable pub work : OutboxEventRow → Action Tables WorkerOutcome
  unfolding finish
  work event t =
      if not (is_owner worker event.claimed_by)
      then (raised Failure.value_error, t)
      else finish event (
          process_claimed_event c provider meanwhile.after_fence now
            (capabilities_for payment_executor) event t)

  unfoldable pub take : Text → Action Tables WorkerOutcome
  unfolding work
  take event_id t = elim (find (is_event event_id) t.outbox) [
    | none ↦ (raised Failure.value_error, t)
    | some event ↦ work event t
  ]

  unfoldable pub after_claim :
      Tables → Option Text × List OutboxEventRow → Result WorkerOutcome × Tables
  unfolding take
  after_claim t (none, events) = (ok idle, record t { outbox = events })
  after_claim t (some event_id, events) =
      take event_id (meanwhile.after_claim (record t { outbox = events }))

  unfoldable pub run_once : Action Tables WorkerOutcome
  unfolding after_claim claim_next_event
  run_once t = after_claim t (claim_next_event meanwhile.during_claim worker now lease t.outbox)

  -- What follows one turn of `drain`.
  unfoldable pub go_on :
      Action Tables (List WorkerOutcome) → WorkerOutcome → Action Tables (List WorkerOutcome)
  go_on rest outcome =
      if is_none outcome.event_id then pure [] else (rest >>= λ outcomes. pure (outcome ∷ outcomes))

  unfoldable pub drain : ℕ → Action Tables (List WorkerOutcome)
  unfolding run_once go_on ◌>>=◌
  drain zero = pure []
  drain (suc max_events) = run_once >>= go_on (drain max_events)
