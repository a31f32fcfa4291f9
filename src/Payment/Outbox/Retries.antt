-- ===== src/Payment/Outbox/Retries.antt =====
-- How often an event of the outbox is tried (services/payment_executor/outbox.py under the loop
-- of services/payment_executor/worker.py).
use pactra.Base.{
  min, max, length, ltb, ◌-◌, ℕ, zero, suc, Text, Moment, ◌+◌, ◌≤◌, ◌<◌, ◌≡◌, refl, Bool, true,
  false, List, [], ◌∷◌, arith, if◌then◌else◌,
}
use pactra.Domain.{Value}
use pactra.Payment.Rows.{OutboxEventRow, failed}
use pactra.Payment.Outbox.{
  is_due, claimed, reschedule_event, status_eq, backoff_for, backoff_seconds, nth,
}

abbrev all_positive : List ℕ → Bool
all_positive [] = true
all_positive (x ∷ xs) = if ltb 0 x then all_positive xs else false

nth-positive : (xs : List ℕ) → all_positive xs ≡ true → (i : ℕ) → i < length xs → 0 < nth xs i
nth-positive [] h i l = absurd (omega (arith, l))
nth-positive (x ∷ xs) h zero l = ground (arith, h)
nth-positive (x ∷ xs) h (suc i) l = nth-positive xs (ground (arith, h)) i (omega (arith, l))

pub backoff_for-positive : (n : ℕ) → 0 < backoff_for n
unfolding backoff_for
backoff_for-positive n =
    let step = nth-positive backoff_seconds refl (min (max (n - 1) 0) 7) (omega arith) in
    omega (arith, step)

-- One round of a worker whose handling of the event fails: if the event is due it is claimed and,
-- later, rescheduled.
pub record Round : Type 0 where
  pub worker : Text
  pub now : Moment
  pub lease : ℕ
  pub failed_at : Moment
  pub reason : Value

unfoldable pub fail_round : Round → OutboxEventRow → OutboxEventRow
unfolding is_due reschedule_event
fail_round r event =
    if is_due r.now event
    then (reschedule_event r.reason r.failed_at (claimed r.worker (r.now + r.lease) event)).1
    else event

unfoldable pub fail_rounds : List Round → OutboxEventRow → OutboxEventRow
unfolding fail_round
fail_rounds [] event = event
fail_rounds (r ∷ rs) event = fail_rounds rs (fail_round r event)

-- What an event keeps to: it can fall due only with tries left, and is given up only with none.
record Bounded (n : ℕ) (e : OutboxEventRow) : Type 0 where
  limit : e.max_attempts ≡ n
  tries : e.attempts ≤ n
  left : (t : Moment) → is_due t e ≡ true → e.attempts < n
  spent : status_eq e.status failed ≡ true → e.attempts ≡ n
