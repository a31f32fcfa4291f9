-- ===== src/Tests/Turns.antt =====
-- Turns of the worker on concrete tables.
use pactra.Base.{◌≡◌, refl, some, [], ◌∷◌, find, false, ◌==◌}
use pactra.Action.{raised, ◌>>=◌}
use pactra.Domain.{MissionState, Failure}
use pactra.Payment.State.{PaymentIntentState}
use pactra.Payment.Rows.{OutboxEventRow, OutboxEventType}
use pactra.Payment.Outbox.{postgresql, claimed}
use pactra.Payment.Tables.{Tables}
use pactra.Payment.Worker.Process.{is_event, process_claimed_event}
use pactra.Payment.Executor.Session.{DispatchResult}
use pactra.Kernel.Capability.{capabilities_for, payment_executor}
use pactra.Payment.Worker.Turn.{WorkerOutcome, Meanwhile, rescheduled, work}
use pactra.Payment.Worker.Recovery.{Returned, work-Returned}
use pactra.Tests.Samples.{crypto, provider, intent, store_of, spent_row, event}

-- No other transaction commits; one holds the event 99 locked.
abbrev alone : Meanwhile
alone = record {
  during_claim = postgresql (λ k. k == 99);
  after_claim = λ t. t;
  after_fence = λ t. t;
  before_recovery = λ t. t;
}

-- An event that is due, and that another transaction holds locked.
abbrev locked_event : OutboxEventRow
locked_event = record event { id = 99 }

-- It stands beside an event about a payment that has succeeded already.
abbrev busy_tables : Tables
busy_tables = record {
  store = store_of spent_row;
  missions = record { id = 5; state = MissionState.payment_pending } ∷ [];
  intents = record intent { state = PaymentIntentState.succeeded } ∷ [];
  outbox = event ∷ locked_event ∷ [];
  webhook_events = [];
  next_uuid = 60;
}

abbrev handled : WorkerOutcome
handled = record {
  event_id = some 51;
  event_type = some OutboxEventType.payment_create_requested;
  result = some (record {
    state = PaymentIntentState.succeeded;
    provider_called = false;
    retry_scheduled = false;
  });
}

-- The event as the worker has claimed it.
abbrev mine : OutboxEventRow
mine = claimed 61 430 event

-- A payment that another provider is to make.
abbrev strayed_tables : Tables
strayed_tables = record busy_tables {
  intents = record intent { provider = 42 } ∷ [];
  outbox = mine ∷ [];
}

strayed :
    (process_claimed_event crypto provider
      (λ t. t)
      400
      (capabilities_for payment_executor)
      mine
      strayed_tables).0
    ≡ raised Failure.payment_mismatch
unfolding process_claimed_event pactra.Payment.Worker.Process.handle
    pactra.Payment.Worker.Process.work_on pactra.Payment.Worker.Process.close_work
    pactra.Payment.Worker.Process.after_opening pactra.Payment.Executor.Dispatch.open_dispatch
    pactra.Payment.Executor.Dispatch.choose_path
    pactra.Payment.Executor.Session.validate_provider_route ◌>>=◌
    pactra.Kernel.Capability.enforce_registered pactra.Kernel.Capability.enforce
    pactra.Kernel.Capability.permits pactra.Kernel.Capability.capabilities_for
strayed = refl

kept :
    find
      (is_event 51)
      (process_claimed_event crypto provider
        (λ t. t)
        400
        (capabilities_for payment_executor)
        mine
        strayed_tables).1.outbox
    ≡ some mine
unfolding process_claimed_event pactra.Payment.Worker.Process.handle
    pactra.Payment.Worker.Process.work_on pactra.Payment.Worker.Process.close_work
    pactra.Payment.Worker.Process.after_opening pactra.Payment.Executor.Dispatch.open_dispatch
    pactra.Payment.Executor.Dispatch.choose_path
    pactra.Payment.Executor.Session.validate_provider_route ◌>>=◌
    pactra.Kernel.Capability.enforce_registered pactra.Kernel.Capability.enforce
    pactra.Kernel.Capability.permits pactra.Kernel.Capability.capabilities_for
kept = refl

work-Returned_example :
    ((work crypto provider alone 61 30 400 mine strayed_tables).0 ≡ raised Failure.payment_mismatch)
    × (find (is_event 51) (work crypto provider alone 61 30 400 mine strayed_tables).1.outbox
        ≡ some (rescheduled 400 mine))
    × Returned 400 mine (rescheduled 400 mine)
work-Returned_example =
    work-Returned crypto provider alone 61 30 400 mine strayed_tables Failure.payment_mismatch mine
      refl strayed kept
