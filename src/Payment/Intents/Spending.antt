-- ===== src/Payment/Intents/Spending.antt =====
-- The payment intent that a request creates (services/payment_executor/intents.py).
use mathlib.Core.Path.{subst}
use pactra.Base.{
  ⊤, Text, Moment, ◌≤◌, ◌≡◌, refl, ◌∙◌, sym, ap, inl, inr, some, List, [], ◌∷◌, ◌++◌, find, count,
  arith, update_where, Bool-cases,
}
use pactra.Action.{Result, ok, ◌>>=◌, >>=-ok}
use pactra.Domain.{MissionState}
use pactra.Mission
use pactra.Kernel.Transaction.{Crypto, BoundTransaction}
use pactra.Kernel.Authorization.Rows.{AuthorizationRow, consumed, has_id}
use pactra.Kernel.Authorization.Lifecycle.{consume_authorization}
use pactra.Kernel.Authorization.Verdict.{consume_authorization-row, consume_authorization-verdict}
use pactra.Kernel.Authorization.History.{verdict-consumed}
use pactra.Payment.State.{queued, assert_payment_transition}
use pactra.Payment.Rows.{PaymentIntentRow, OutboxEventRow, OutboxEventType}
use pactra.Payment.Outbox.{new_event}
use pactra.Payment.Tables.{MissionRow, Tables, is_intent}
use pactra.Payment.Intents.Create.{
  in_kernel, append_event, has_key, collides, insert_intent, queue_intent, enqueue_create,
  start_payment, announce, place_intent,
}

-- What the announcement of an intent leaves.
record Announced (i : PaymentIntentRow) (s t : Tables) : Type 0 where
  intents : t.intents ≡ update_where (is_intent i.id) (λ j. record j { state = queued }) s.intents
  authorizations : t.store.authorizations ≡ s.store.authorizations
  enqueued :
      (e : OutboxEventRow) × (t.outbox ≡ s.outbox ++ e ∷ [])
      × (e.payment_intent_id ≡ i.id)
      × (e.event_type ≡ OutboxEventType.payment_create_requested)

announce-Announced :
    (i : PaymentIntentRow) (tx : BoundTransaction) (m : MissionRow) (now : Moment) (s : Tables)
    → Announced i s (announce i tx m now s).1
unfolding announce queue_intent append_event enqueue_create start_payment new_event ◌>>=◌
    assert_payment_transition pactra.Payment.State.can_transition
announce-Announced i tx m now s =
    elim (Bool-cases (Mission.can_transition m.state MissionState.payment_pending)) [
      | inl starts ↦
          rw starts
            (record { intents = refl; authorizations = refl; enqueued = (_, refl, refl, refl) })
      | inr stays ↦
          rw stays
            (record { intents = refl; authorizations = refl; enqueued = (_, refl, refl, refl) })
    ]

insert_intent-state :
    (i : PaymentIntentRow) (t : Tables) {u : ⊤}
    → (insert_intent i t).0 ≡ ok u
    → (insert_intent i t).1 ≡ record t { intents = i ∷ t.intents }
unfolding insert_intent ◌>>=◌
insert_intent-state i t h = elim (Bool-cases (collides i t.intents)) [
  | inl taken ↦ absurd (ground arith)
  | inr free ↦ rw free refl
]

-- What a savepoint that was released has written.
pub record Placed (i : PaymentIntentRow) (t u : Tables) : Type 0 where
  pub spent :
      count (has_id i.authorization_id) t.store.authorizations ≤ 1
      → (row : AuthorizationRow) × (find (has_id i.authorization_id) u.store.authorizations
          ≡ some row)
        × (row.status ≡ consumed)
  pub recorded : find (has_key i.idempotency_key) u.intents ≡ some (record i { state = queued })
  pub enqueued :
      (e : OutboxEventRow) × (u.outbox ≡ t.outbox ++ e ∷ [])
      × (e.payment_intent_id ≡ i.id)
      × (e.event_type ≡ OutboxEventType.payment_create_requested)

first_row :
    (i : PaymentIntentRow) (rows : List PaymentIntentRow)
    → find
        (has_key i.idempotency_key)
        (update_where (is_intent i.id) (λ j. record j { state = queued }) (i ∷ rows))
      ≡ some (record i { state = queued })
first_row i rows = ground arith

consumption :
    (c : Crypto) (k : Text) (tx : BoundTransaction) (now : Moment) (t : Tables)
    {row : AuthorizationRow}
    → (consume_authorization c k tx now t.store).0 ≡ ok row
    → count (has_id k) t.store.authorizations ≤ 1
    → (r : AuthorizationRow) × (find
          (has_id k)
          (consume_authorization c k tx now t.store).1.authorizations
        ≡ some r)
      × (r.status ≡ consumed)
consumption c k tx now t {row} h keyed = (
  row,
  consume_authorization-row c k now t.store keyed tx row h,
  verdict-consumed c tx now (find (has_id k) t.store.authorizations) row
      (rw (consume_authorization-verdict c k now t.store keyed tx) at h),
)

pub place_intent-Placed :
    (c : Crypto) (i : PaymentIntentRow) (tx : BoundTransaction) (m : MissionRow) (now : Moment)
    (t : Tables) {u : ⊤}
    → (place_intent c i tx m now t).0 ≡ ok u
    → Placed i t (place_intent c i tx m now t).1
unfolding place_intent in_kernel
place_intent-Placed c i tx m now t h =
    let (_, inserted, step1) = >>=-ok _ _ t h in
    let there = insert_intent-state i t inserted in
    let (row, done, step2) = >>=-ok _ _ (insert_intent i t).1 (rw step1 at h) in
    let consume = in_kernel (consume_authorization c i.authorization_id tx now) in
    let t1 = record t { intents = i ∷ t.intents } in
    let final = step1 ∙ step2 ∙ ap (λ s. announce i tx m now (consume s).1) there in
    let a = announce-Announced i tx m now (consume t1).1 in
    let done' : (consume t1).0 ≡ ok row = rw there at done in
    subst (λ (q : Result ⊤ × Tables). Placed i t q.1) (sym final)
      (record {
        spent = λ keyed.
            let (r, f, e) = consumption c i.authorization_id tx now t done' keyed in
            (r, rw a.authorizations f, e);
        recorded = rw a.intents (first_row i t.intents);
        enqueued = a.enqueued;
      })
