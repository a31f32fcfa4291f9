-- ===== src/Tests/Settling.antt =====
-- Reconciliation and webhooks on concrete data.
use pactra.Base.{Text, ◌≡◌, ◌≤◌, refl, none, some, [], ◌∷◌, arith, inl, ◌==◌, count, find}
use pactra.Action.{◌>>=◌}
use pactra.Action.Follows.{Follows}
use pactra.Domain.{MissionState}
use pactra.Payment.State.{PaymentIntentState}
use pactra.Payment.Tables.{Tables, is_intent, Untouched}
use pactra.Payment.Executor.Same.{On}
use pactra.Payment.Executor.Moves.{Keeps, RowMoves-refl}
use pactra.Payment.Reconciliation.Reconcile.{reconcile_intent}
use pactra.Payment.Reconciliation.Quiet.{reconcile_intent-Keeps}
use pactra.Payment.Reconciliation.Barred.{Barred}
use pactra.Payment.Reconciliation.Fenced.{reconcile_intent-Barred}
use pactra.Payment.Reconciliation.Ambiguous.{Suspended, reconcile_intent-Suspended}
use pactra.Payment.Webhooks.Events.{
  VerifiedWebhookEvent, WebhookEventType, verified, WebhookProvider,
}
use pactra.Payment.Webhooks.Deliver.{deliver}
use pactra.Payment.Webhooks.Handle.{handle_webhook}
use pactra.Payment.Webhooks.Moves.{Under}
use pactra.Payment.Webhooks.Suspended.{deliver-Suspended}
use pactra.Payment.Webhooks.Duplicates.{handle_webhook-twice}
use pactra.Payment.Webhooks.Rowwise.{TableMoves, handle_webhook-TableMoves}
use pactra.Tests.Samples.{crypto, provider, executor, intent, store_of, spent_row}

reconcile_intent-Keeps_example :
    Follows Keeps (reconcile_intent crypto provider executor (λ i. i) 400)
reconcile_intent-Keeps_example =
    reconcile_intent-Keeps crypto provider executor (λ i. i) 400 RowMoves-refl

reconcile_intent-Barred_example :
    Follows (On Barred) (reconcile_intent crypto provider executor (λ i. i) 400)
reconcile_intent-Barred_example =
    reconcile_intent-Barred provider refl 400 crypto executor (λ i. i) (λ i e. (e, λ g. g))

reconcile_intent-Suspended_example :
    Follows (On Suspended) (reconcile_intent crypto provider executor (λ i. i) 400)
reconcile_intent-Suspended_example =
    reconcile_intent-Suspended provider 400 crypto executor (λ i. i)
      (λ i e. record { seen = e; state = inl refl; linked = refl })

-- The payment 71 of the provider 41 has succeeded.
abbrev settlement : VerifiedWebhookEvent
settlement = record {
  provider = 41;
  provider_event_id = 81;
  event_type = WebhookEventType.payment_succeeded;
  provider_payment_id = 71;
  provider_order_id = none;
  provider_transaction_id = some 72;
  amount_inr = some 400;
  currency = some 23;
  provider_status = none;
  provider_attempts = none;
  sequence = none;
}

abbrev sender : WebhookProvider
sender = record { name = 41; verify_webhook = λ body signature id. verified settlement }

abbrev pending_tables : Tables
pending_tables = record {
  store = store_of spent_row;
  missions = record { id = 5; state = MissionState.payment_pending } ∷ [];
  intents =
      record intent { provider_payment_id = some 71; state = PaymentIntentState.provider_pending }
      ∷ [];
  outbox = [];
  webhook_events = [];
  next_uuid = 60;
}

deliver-Suspended_example : Follows (Under Suspended) (deliver 60 settlement 500)
deliver-Suspended_example = deliver-Suspended 60 settlement 500

handle_webhook-twice_example :
    Untouched
      (handle_webhook sender 1 2 none 500 pending_tables).1
      (handle_webhook sender 1 2 none 600 (handle_webhook sender 1 2 none 500 pending_tables).1).1
handle_webhook-twice_example = handle_webhook-twice sender 1 2 none 500 600 pending_tables

one_each : (k : Text) → count (is_intent k) pending_tables.intents ≤ 1
one_each k = ground arith

handle_webhook-TableMoves_example :
    TableMoves pending_tables.intents (handle_webhook sender 1 2 none 500 pending_tables).1.intents
handle_webhook-TableMoves_example =
    handle_webhook-TableMoves sender 1 2 none 500 pending_tables one_each

-- The first delivery settles the payment.
settled :
    find (λ i. i.id == 31) (handle_webhook sender 1 2 none 500 pending_tables).1.intents
    ≡ some (record intent {
      provider_payment_id = some 71;
      provider_transaction_id = some 72;
      state = PaymentIntentState.succeeded;
    })
unfolding handle_webhook ◌>>=◌ deliver pactra.Payment.Webhooks.Handle.admit
    pactra.Payment.Webhooks.Handle.evidence_matches pactra.Payment.Webhooks.Handle.accept
    pactra.Payment.Webhooks.Handle.fresh pactra.Payment.Webhooks.Handle.on_intent
    pactra.Payment.Webhooks.Deliver.insert_event pactra.Payment.Webhooks.Deliver.holding
    pactra.Payment.Webhooks.Deliver.apply_event pactra.Payment.Webhooks.Deliver.is_refused
    pactra.Payment.Webhooks.Deliver.perform pactra.Payment.Webhooks.Deliver.store_provider_evidence
    pactra.Payment.Webhooks.Deliver.move_mission pactra.Payment.Webhooks.Deliver.mark_processed
    pactra.Payment.Held.append_event pactra.Payment.Held.update_intent
    pactra.Payment.Held.apply_payment_transition pactra.Payment.Held.apply_mission_state
    pactra.Payment.Held.moved pactra.Payment.Webhooks.Events.webhook_type_to_state
    pactra.Payment.State.assert_payment_transition pactra.Payment.State.can_transition
    pactra.Payment.State.is_terminal pactra.Mission.can_transition
settled = refl
