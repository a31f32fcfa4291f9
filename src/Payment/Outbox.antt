-- ===== src/Payment/Outbox.antt =====
-- The transactional outbox (services/payment_executor/outbox.py). A claim reads a candidate and
-- then updates it under a condition on what it saw; both halves are functions of the table, so
-- that other workers can act between them.
pub mod Claims
pub mod Leases
pub mod Retries
use pactra.Base.{
  ⊤, ℕ, zero, suc, Text, Moment, ◌+◌, ◌-◌, ◌*◌, min, max, Bool, true, false, not, ◌&&◌, ◌||◌,
  Option, none, some, List, [], ◌∷◌, ◌==◌, ltb, leb, count, update_where, if◌then◌else◌,
}
use pactra.Domain.{Payload, Value}
use pactra.Payment.Rows.{
  OutboxStatus, pending, in_progress, processed, failed, OutboxEventType, OutboxEventRow,
}

abbrev pub index : OutboxStatus → ℕ
index pending = 0
index in_progress = 1
index processed = 2
index failed = 3

abbrev pub status_eq : OutboxStatus → OutboxStatus → Bool
status_eq a b = index a == index b

-- `timedelta(seconds=n)`, in microseconds.
abbrev pub seconds : ℕ → ℕ
seconds n = n * 1000000

abbrev pub default_lease : ℕ
default_lease = seconds 30

abbrev pub default_max_attempts : ℕ
default_max_attempts = 8

abbrev backoff_seconds : List ℕ
backoff_seconds = 1 ∷ 2 ∷ 5 ∷ 15 ∷ 30 ∷ 60 ∷ 120 ∷ 300 ∷ []

-- `steps[index]`; the index below is always in range.
abbrev nth : List ℕ → ℕ → ℕ
nth [] i = 0
nth (x ∷ xs) zero = x
nth (x ∷ xs) (suc i) = nth xs i

unfoldable pub backoff_for : ℕ → ℕ
backoff_for attempts = seconds (nth backoff_seconds (min (max (attempts - 1) 0) 7))

-- The row that `enqueue_outbox_event` adds; `id` is the result of `uuid4`, and `created_at` is
-- the database's clock.
unfoldable pub new_event :
    Text → Text → OutboxEventType → Payload → Moment → ℕ → Moment → OutboxEventRow
new_event id payment_intent_id event_type payload available_at max_attempts created_at = record {
  id = id;
  payment_intent_id = payment_intent_id;
  event_type = event_type;
  payload = payload;
  status = pending;
  attempts = 0;
  max_attempts = max_attempts;
  available_at = available_at;
  created_at = created_at;
  claimed_by = none;
  last_error = none;
  processed_at = none;
}

-- `_due_predicate`
unfoldable pub is_due : Moment → OutboxEventRow → Bool
is_due moment event =
    (status_eq event.status pending || status_eq event.status in_progress)
    && leb event.available_at moment

-- `ORDER BY available_at ASC, created_at ASC`: whether `a` stands strictly before `b`.
abbrev pub earlier : OutboxEventRow → OutboxEventRow → Bool
earlier a b =
    ltb a.available_at b.available_at
    || (a.available_at == b.available_at && ltb a.created_at b.created_at)

-- The due event that stands first; of equal ones, the first in the table.
unfoldable pub first_due : Moment → List OutboxEventRow → Option OutboxEventRow
unfolding is_due
first_due moment [] = none
first_due moment (e ∷ es) =
    let rest = first_due moment es in
    if is_due moment e
    then some (elim rest [ none ↦ e | some b ↦ if earlier b e then b else e ])
    else rest

abbrev pub claimed : Text → Moment → OutboxEventRow → OutboxEventRow
claimed worker_id lease_until event = record event {
  status = in_progress;
  attempts = event.attempts + 1;
  claimed_by = some worker_id;
  available_at = lease_until;
}

-- The condition of the portable claim: the row still is what the SELECT observed.
abbrev pub is_unmoved : OutboxEventRow → OutboxEventRow → Bool
is_unmoved seen event =
    event.id == seen.id
    && status_eq event.status seen.status
    && event.available_at == seen.available_at

-- The UPDATE of `_claim_conditional`: the identifier if exactly one row changed, and the table.
unfoldable pub claim_observed :
    Text → Moment → ℕ → OutboxEventRow → List OutboxEventRow → Option Text × List OutboxEventRow
claim_observed worker_id now lease seen events = (
  if count (is_unmoved seen) events == 1 then some seen.id else none,
  update_where (is_unmoved seen) (claimed worker_id (now + lease)) events,
)

-- `_claim_conditional`, with what other workers do between its two statements.
unfoldable pub claim_conditional :
    (List OutboxEventRow → List OutboxEventRow)
    → Text
    → Moment
    → ℕ
    → List OutboxEventRow
    → Option Text × List OutboxEventRow
unfolding first_due claim_observed
claim_conditional others worker_id now lease events = elim (first_due now events) [
  | none ↦ (none, others events)
  | some seen ↦ claim_observed worker_id now lease seen (others events)
]

-- `SKIP LOCKED`: the rows that no other transaction holds locked.
abbrev pub unlocked : (Text → Bool) → List OutboxEventRow → List OutboxEventRow
unlocked locked [] = []
unlocked locked (e ∷ es) = let rest = unlocked locked es in if locked e.id then rest else e ∷ rest

-- `_claim_postgres`: one statement, with the locks that other transactions hold meanwhile.
unfoldable pub claim_postgres :
    (Text → Bool) → Text → Moment → ℕ → List OutboxEventRow → Option Text × List OutboxEventRow
unfolding first_due
claim_postgres locked worker_id now lease events = elim (first_due now (unlocked locked events)) [
  | none ↦ (none, events)
  | some seen ↦
      (some seen.id, update_where (λ e. e.id == seen.id) (claimed worker_id (now + lease)) events)
]

-- The database that the session is bound to, with what other transactions do during a claim: the
-- locks that they hold, or what they commit between its two statements.
pub data Dialect : Type 0 where
  postgresql : (Text → Bool) → Dialect
  portable : (List OutboxEventRow → List OutboxEventRow) → Dialect

-- `claim_next_event`, up to the reading of the claimed row.
unfoldable pub claim_next_event :
    Dialect → Text → Moment → ℕ → List OutboxEventRow → Option Text × List OutboxEventRow
unfolding claim_postgres claim_conditional
claim_next_event (postgresql locked) = claim_postgres locked
claim_next_event (portable others) = claim_conditional others

-- `complete_event`
unfoldable pub complete_event : Moment → OutboxEventRow → OutboxEventRow
complete_event moment event = record event {
  status = processed;
  processed_at = some moment;
  last_error = none;
}

-- `reschedule_event` with its default delay. The reason is cut to 200 characters in the source.
unfoldable pub reschedule_event : Value → Moment → OutboxEventRow → Bool × OutboxEventRow
unfolding backoff_for
reschedule_event detail moment event =
    if leb event.max_attempts event.attempts
    then (
      false,
      record event { last_error = some detail; status = failed; processed_at = some moment },
    )
    else (
      true,
      record event {
        last_error = some detail;
        status = pending;
        available_at = moment + backoff_for event.attempts;
      },
    )
