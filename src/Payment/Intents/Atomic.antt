-- ===== src/Payment/Intents/Atomic.antt =====
-- The savepoint of a payment request (services/payment_executor/intents.py).
use pactra.Base.{⊤, Text, Moment, ◌+◌, ◌≡◌, refl, inl, inr, Bool, false, none, find, Option-cases}
use pactra.Action.{Result, ok, raised, continue, ◌>>=◌}
use pactra.Domain.{Failure}
use pactra.Kernel.Transaction.{Crypto, BoundTransaction}
use pactra.Payment.Rows.{PaymentIntentRow}
use pactra.Payment.Tables.{MissionRow, Tables, Untouched, Untouched-trans}
use pactra.Payment.Intents.Create.{
  find_by_idempotency_key, has_key, PaymentIntentResult, resolve_existing, end_savepoint, savepoint,
  fresh, conclude, place_or_resolve,
}
use pactra.Payment.Intents.Reuse.{resolve_existing-answer}

abbrev pub is_created : Result PaymentIntentResult → Bool
is_created (ok r) = r.created
is_created (raised e) = false

-- The tables when an identifier has been drawn for the new row.
abbrev pub drawn : Tables → Tables
drawn t = record t { next_uuid = t.next_uuid + 1 }

resolve_existing-Untouched :
    (c : Crypto) (e : PaymentIntentRow) (fingerprint key : Text) (t : Tables)
    → Untouched t (resolve_existing c e fingerprint key t).1
resolve_existing-Untouched c e fingerprint key t = (resolve_existing-answer c e fingerprint key t).1

-- A violated index is resolved without a change.
conclude-Untouched :
    (c : Crypto) (i : PaymentIntentRow) (t u : Tables)
    → Untouched t u
    → Untouched t (conclude c i none u).1
unfolding conclude find_by_idempotency_key ◌>>=◌
conclude-Untouched c i t u k = elim (Option-cases (find (has_key i.idempotency_key) u.intents)) [
  | inl gone ↦ rw gone k
  | inr (winner, won) ↦ rw won (
      Untouched-trans t u _ k
        (resolve_existing-Untouched c winner i.request_fingerprint i.idempotency_key u))
]

rolled : (before after : Tables) → Untouched before (record before { next_uuid = after.next_uuid })
rolled before after = record {
  intents = refl;
  missions = refl;
  outbox = refl;
  webhook_events = refl;
  authorizations = refl;
}

module _ (c : Crypto) (i : PaymentIntentRow) where
  -- A savepoint that was rolled back is as it was before.
  ended-Untouched :
      (r : Result ⊤) (before after : Tables)
      → is_created
          (continue
            (end_savepoint r before after).0
            (conclude c i)
            (end_savepoint r before after).1).0
        ≡ false
      → Untouched before
          (continue
            (end_savepoint r before after).0
            (conclude c i)
            (end_savepoint r before after).1).1
  unfolding end_savepoint conclude ◌>>=◌
  ended-Untouched (ok u) before after h = absurd (cc)
  ended-Untouched (raised Failure.integrity_error) before after h =
      conclude-Untouched c i before (record before { next_uuid = after.next_uuid })
        (rolled before after)
  ended-Untouched (raised _) before after h = rolled before after

module _ (c : Crypto) (others : Tables → Tables) (row : Text → PaymentIntentRow)
    (tx : BoundTransaction) (mission : MissionRow) (now : Moment) where
  -- A verified payment request that does not return a new intent, because it raises at any point
  -- or because another request has won its key, leaves every intent, mission, outbox event,
  -- webhook event and authorization as the other transactions have left them: no authorization is
  -- consumed without its intent.
  pub place_or_resolve-atomic :
      (t : Tables)
      → is_created (place_or_resolve c others row tx mission now t).0 ≡ false
      → Untouched (others (drawn t)) (place_or_resolve c others row tx mission now t).1
  unfolding place_or_resolve fresh savepoint ◌>>=◌
  place_or_resolve-atomic t h = ended-Untouched c (row t.next_uuid) _ (others (drawn t)) _ h
