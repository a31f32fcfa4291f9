-- ===== src/Payment/Worker/Idle.antt =====
-- When `drain` stops (services/payment_executor/worker.py).
use pactra.Base.{Bool, false, ℕ, Text, Moment, ◌≡◌, ◌≤◌, ◌<◌, false, none, List, length}
use pactra.Action.{ok, Action}
use pactra.Kernel.Transaction.{Crypto}
use pactra.Payment.Rows.{PaymentProvider}
use pactra.Payment.Outbox.{first_due, unlocked, postgresql}
use pactra.Payment.Tables.{Tables}
use pactra.Payment.Worker.Turn.{WorkerOutcome, Meanwhile}

module _ (c : Crypto) (p : PaymentProvider) (meanwhile : Meanwhile) (worker : Text) (lease : ℕ)
    (now : Moment) (locked : Text → Bool) (pg : meanwhile.during_claim ≡ postgresql locked) where
  -- What a number of turns leaves.
  abbrev Leaves : ℕ → Action Tables (List WorkerOutcome) → Type 0
  Leaves n m =
      (t : Tables) (outcomes : List WorkerOutcome)
      → (m t).0 ≡ ok outcomes
      → (length outcomes ≤ n)
        × (length outcomes < n → first_due now (unlocked locked (m t).1.outbox) ≡ none)
