-- ===== src/Payment/Worker/Recovery.antt =====
-- What is left of an event whose handler raises (services/payment_executor/worker.py, the
-- `except` of `run_once`).
use pactra.Base.{
  ℕ, Text, Moment, ◌≡◌, refl, ◌≤◌, ◌<◌, ◌⊎◌, inl, inr, true, some, arith, find, ◌∙◌, Bool-cases,
  leb, find-accepts,
}
use pactra.Base.Tables.{find-update_where_on}
use pactra.Domain.{Failure}
use pactra.Action.{Result, ok, raised}
use pactra.Kernel.Capability.{capabilities_for, payment_executor}
use pactra.Kernel.Transaction.{Crypto}
use pactra.Payment.Rows.{OutboxEventRow, PaymentProvider, pending, failed}
use pactra.Payment.Outbox.{reschedule_event}
use pactra.Payment.Outbox.Retries.{backoff_for-positive}
use pactra.Payment.Executor.Session.{DispatchResult}
use pactra.Payment.Tables.{Tables}
use pactra.Payment.Worker.Process.{is_event, process_claimed_event}
use pactra.Payment.Worker.Turn.{Meanwhile, is_owner, rescheduled, recover, finish, work}

-- An event that has gone back to the queue, or has been given up for want of attempts.
pub record Returned (now : Moment) (before after : OutboxEventRow) : Type 0 where
  same : after.id ≡ before.id
  attempted : after.attempts ≡ before.attempts
  fate :
      ((after.status ≡ pending)
        × (before.attempts < before.max_attempts)
        × (now < after.available_at))
      ⊎ ((after.status ≡ failed) × (before.max_attempts ≤ before.attempts))

rescheduled-Returned :
    (now : Moment) (event : OutboxEventRow) → Returned now event (rescheduled now event)
unfolding reschedule_event
rescheduled-Returned now event = elim (Bool-cases (leb event.max_attempts event.attempts)) [
  | inl spent ↦ record {
    same = ground (arith, spent);
    attempted = ground (arith, spent);
    fate = inr (ground (arith, spent), ground (arith, spent));
  }
  | inr left ↦ record {
    same = ground (arith, left);
    attempted = ground (arith, left);
    fate = inl (
      ground (arith, left),
      ground (arith, left),
      ground (arith, left, backoff_for-positive event.attempts),
    );
  }
]

module _ (c : Crypto) (p : PaymentProvider) (meanwhile : Meanwhile) (worker : Text) (lease : ℕ)
    (now : Moment) where
  recover-finds :
      (id : Text) (t : Tables) {stale : OutboxEventRow}
      → find (is_event id) t.outbox ≡ some stale
      → find (is_event id) (recover id now t).outbox ≡ some (rescheduled now stale)
  unfolding recover
  recover-finds id t {stale} h =
      find-update_where_on (is_event id) (is_event id) (rescheduled now)
        (λ x hit. rw (rescheduled-Returned now x).same refl) t.outbox
      ∙ rw (h, find-accepts (is_event id) t.outbox h) refl

  finish-Returned :
      (event : OutboxEventRow) (q : Result DispatchResult × Tables) (e : Failure)
      (stale : OutboxEventRow)
      → q.0 ≡ raised e
      → find (is_event event.id) (meanwhile.before_recovery q.1).outbox ≡ some stale
      → ((finish c p meanwhile worker lease now event q).0 ≡ raised e)
        × (find (is_event event.id) (finish c p meanwhile worker lease now event q).1.outbox
            ≡ some (rescheduled now stale))
        × Returned now stale (rescheduled now stale)
  unfolding finish
  finish-Returned event (ok r, t) e stale raises there = absurd (cc)
  finish-Returned event (raised f, t) e stale raises there = (
    ground (arith, raises),
    recover-finds event.id (meanwhile.before_recovery t) there,
    rescheduled-Returned now stale,
  )

  -- A handler that raises, whatever it raises: the turn raises the same, and the event, as other
  -- transactions have left it, is kept with its attempts and either goes back to the queue, due at a
  -- later instant and with attempts left, or is FAILED with none left.
  pub work-Returned :
      (event : OutboxEventRow) (t : Tables) (e : Failure) (stale : OutboxEventRow)
      → is_owner worker event.claimed_by ≡ true
      → (process_claimed_event c p meanwhile.after_fence now
          (capabilities_for payment_executor)
          event
          t).0
        ≡ raised e
      → find
          (is_event event.id)
          (meanwhile.before_recovery
            (process_claimed_event c p meanwhile.after_fence now
              (capabilities_for payment_executor)
              event
              t).1).outbox
        ≡ some stale
      → ((work c p meanwhile worker lease now event t).0 ≡ raised e)
        × (find (is_event event.id) (work c p meanwhile worker lease now event t).1.outbox
            ≡ some (rescheduled now stale))
        × Returned now stale (rescheduled now stale)
  unfolding work
  work-Returned event t e stale mine raises there =
      rw mine (finish-Returned event _ e stale raises there)
