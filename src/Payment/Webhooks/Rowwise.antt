-- ===== src/Payment/Webhooks/Rowwise.antt =====
-- The table of intents under a webhook.
use pactra.Base.{
  Text, Moment, ◌≡◌, refl, ◌∙◌, ap, sym, ◌≤◌, inl, inr, true, ◌==◌, Option, some, List, is_some,
  Bool-cases, Option-cases, find, count, find-accepts, update_where, arith,
}
use pactra.Base.Tables.{find-update_where_on, find_unique}
use pactra.Action.{Action, lift, ◌>>=◌}
use pactra.Payment.Rows.{PaymentIntentRow}
use pactra.Payment.Tables.{Tables, is_intent}
use pactra.Payment.Executor.Moves.{RowMoves, RowMoves-refl}
use pactra.Payment.Webhooks.Events.{
  VerifiedWebhookEvent, Verification, verified, refused, WebhookProvider, same_event,
}
use pactra.Payment.Webhooks.Deliver.{WebhookOutcome, deliver}
use pactra.Payment.Webhooks.Handle.{
  is_linked, evidence_matches, on_intent, duplicate_delivery, fresh, accept, admit, handle_webhook,
  checked,
}
use pactra.Payment.Webhooks.Moves.{deliver-moves}

-- Every intent of the table is still there and has moved as RowMoves allows.
abbrev pub TableMoves : List PaymentIntentRow → List PaymentIntentRow → Type 0
TableMoves rows rows' =
    (k : Text) (i : PaymentIntentRow)
    → find (is_intent k) rows ≡ some i
    → (j : PaymentIntentRow) × (find (is_intent k) rows' ≡ some j) × RowMoves i j

TableMoves-refl : (rows : List PaymentIntentRow) → TableMoves rows rows
TableMoves-refl rows k i h = (i, h, RowMoves-refl i)

some-injective : {x y : PaymentIntentRow} → some x ≡ some y → x ≡ y
some-injective e = cc

-- A row is replaced by one that it moves to, and no two rows have its key.
replaced-moves :
    (rows : List PaymentIntentRow) (i j : PaymentIntentRow)
    → ((k : Text) → count (is_intent k) rows ≤ 1)
    → find (is_intent i.id) rows ≡ some i
    → RowMoves i j
    → TableMoves rows (update_where (is_intent i.id) (λ _. j) rows)
replaced-moves rows i j keys found m k x h =
    let same_id : j.id ≡ i.id = ap (λ r. r.id) m.same in
    let step =
      find-update_where_on (is_intent k) (is_intent i.id) (λ _. j) (λ y e. ground arith) rows in
    let at_k : (x.id == k) ≡ true = find-accepts (is_intent k) rows h in
    elim (Bool-cases (x.id == i.id)) [
      | inl same ↦
          let k_is : k ≡ i.id = ground arith in
          let x_is : some x ≡ some i = sym h ∙ ap (λ n. find (is_intent n) rows) k_is ∙ found in
          (j, rw (step, h, same) refl, rw (some-injective x_is) m)
      | inr other ↦ (x, rw (step, h, other) refl, RowMoves-refl x)
    ]

delivered-moves :
    (intent : PaymentIntentRow) (event : VerifiedWebhookEvent) (now : Moment) (t : Tables)
    → ((k : Text) → count (is_intent k) t.intents ≤ 1)
    → find (is_linked event) t.intents ≡ some intent
    → TableMoves t.intents ((fresh >>= λ id. on_intent intent (deliver id event now)) t).1.intents
unfolding fresh on_intent ◌>>=◌
delivered-moves intent event now t keys found =
    replaced-moves t.intents intent _ keys
      (find_unique (is_intent intent.id) (is_linked event) t.intents (keys intent.id) found
        (ground arith))
      ((deliver-moves t.next_uuid event now).at _).rows

admit-moves :
    (p : WebhookProvider) (event : VerifiedWebhookEvent) (now : Moment) (t : Tables)
    → ((k : Text) → count (is_intent k) t.intents ≤ 1)
    → TableMoves t.intents (admit p event now t).1.intents
unfolding admit accept ◌>>=◌ duplicate_delivery
admit-moves p event now t keys = elim (Bool-cases (event.provider == p.name)) [
  | inr other ↦ rw other (TableMoves-refl t.intents)
  | inl ours ↦ rw ours (elim (Option-cases (find (is_linked event) t.intents)) [
    | inl unknown ↦ rw unknown (TableMoves-refl t.intents)
    | inr (intent, found) ↦ rw found (elim (Bool-cases (evidence_matches event intent)) [
      | inr contradicts ↦ rw contradicts (TableMoves-refl t.intents)
      | inl agrees ↦
          rw agrees (elim (Bool-cases (is_some (find (same_event event) t.webhook_events))) [
            | inl seen ↦ rw seen (TableMoves-refl t.intents)
            | inr unseen ↦ rw unseen (delivered-moves intent event now t keys found)
          ])
    ])
  ])
]

-- Whatever a webhook says, and whether it is accepted, every intent of the table is there
-- afterwards and has moved along permitted transitions only, with its fence, its ambiguity, its
-- provider's reference and what is to be paid kept; for tables in which no two intents have the
-- same identifier.
pub handle_webhook-TableMoves :
    (p : WebhookProvider) (body signature : Text) (id : Option Text) (now : Moment) (t : Tables)
    → ((k : Text) → count (is_intent k) t.intents ≤ 1)
    → TableMoves t.intents (handle_webhook p body signature id now t).1.intents
unfolding handle_webhook ◌>>=◌
handle_webhook-TableMoves p body signature id now t keys = go (p.verify_webhook body signature id)
  where
    handled : Verification → Action Tables WebhookOutcome
    handled v = lift (checked v) >>= λ event. admit p event now

    go : (v : Verification) → TableMoves t.intents (handled v t).1.intents
    go (verified event) = admit-moves p event now t keys
    go (refused reason) = TableMoves-refl t.intents
