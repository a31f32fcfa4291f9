-- ===== src/Tests/Queues.antt =====
-- The outbox on concrete data.
use pactra.Base.{
  Text, ◌≤◌, ◌≡◌, ◌≢◌, refl, true, false, some, none, [], ◌∷◌, List, arith, count, ◌==◌,
}
use pactra.Domain.{Value}
use pactra.Payment.Rows.{OutboxEventRow, OutboxEventType}
use pactra.Payment.Outbox.{
  is_due, claim_observed, claim_conditional, claim_postgres, new_event, first_due, reschedule_event,
  backoff_for,
}
use pactra.Payment.Outbox.Claims.{claim_observed-once, claim_conditional-postgres}
use pactra.Payment.Outbox.Leases.{Change, changes, AllForeign, claim_postgres-leased}
use pactra.Payment.Outbox.Retries.{Round, fail_round, fail_rounds}
use pactra.Tests.Samples.{event}

abbrev events : List OutboxEventRow
events = record event { id = 50; available_at = 320 } ∷ event ∷ []

-- The event that has been due for longer is claimed first.
claimed_first : (claim_postgres (λ _. false) 1 350 30 events).0 ≡ some 51
unfolding claim_postgres first_due is_due
claimed_first = refl

event-due : is_due 350 event ≡ true
unfolding is_due
event-due = refl

claim_observed-once_example :
    (claim_observed 2 351 30 event (claim_observed 1 350 30 event events).1).0 ≡ none
claim_observed-once_example =
    claim_observed-once 1 2 350 351 30 30 event events event-due (omega arith)

unique_ids : (k : Text) → count (λ x. x.id == k) events ≤ 1
unique_ids k = ground arith

claim_conditional-postgres_example :
    claim_conditional (λ es. es) 1 350 30 events ≡ claim_postgres (λ _. false) 1 350 30 events
claim_conditional-postgres_example = claim_conditional-postgres 1 350 30 events unique_ids

-- Another worker claims the other event, an observer comes too late, the first is rescheduled and an
-- event is added.
abbrev meanwhile : List Change
meanwhile =
    Change.claims (λ _. false) 3 355 30
    ∷ Change.takes 4 356 30 event
    ∷ Change.writes 50 (λ e. record e { available_at = 357 })
    ∷ Change.adds (record event { id = 53 })
    ∷ []

foreign : AllForeign 51 380 meanwhile
unfolding is_due
foreign = (omega arith, ((omega arith, refl), ((refl, λ e h. ground (arith, h)), (refl, tt))))

claim_postgres-leased_example :
    (claim_postgres
      (λ _. false)
      2
      360
      30
      (changes meanwhile (claim_postgres (λ _. false) 1 350 30 events).1)).0
    ≢ some 51
claim_postgres-leased_example =
    claim_postgres-leased 1 2 350 360 30 30 51 (λ _. false) (λ _. false) events meanwhile
      claimed_first foreign (omega arith)

abbrev rounds : List Round
rounds =
    record { worker = 1; now = 300; lease = 30; failed_at = 301; reason = Value.text 9 }
    ∷ record { worker = 2; now = 2000000; lease = 30; failed_at = 2000001; reason = Value.text 9 }
    ∷ record { worker = 1; now = 9000000; lease = 30; failed_at = 9000001; reason = Value.text 9 }
    ∷ []

-- Two attempts are made and the third round finds the event FAILED.
given_up :
    (fail_rounds rounds
      (new_event 51 31 OutboxEventType.payment_create_requested [] 300 2 290)).attempts
    ≡ 2
unfolding fail_rounds new_event fail_round is_due reschedule_event backoff_for
given_up = refl
