-- ===== src/Tests/Purchases.antt =====
-- The creation of payment intents on concrete data.
use pactra.Base.{Text, ◌≡◌, refl, true, false, [], ◌∷◌}
use pactra.Action.{ok, ◌>>=◌}
use pactra.Domain.{MissionState}
use pactra.Payment.Rows.{PaymentIntentRow}
use pactra.Payment.State.{PaymentIntentState}
use pactra.Payment.Tables.{MissionRow, Tables, Untouched}
use pactra.Payment.Intents.Create.{
  create_payment_intent, PaymentIntentResult, new_intent, place_or_resolve, has_key,
  request_fingerprint,
}
use pactra.Payment.Intents.Reuse.{create_payment_intent-reuses}
use pactra.Payment.Intents.Atomic.{is_created, drawn, place_or_resolve-atomic}
use pactra.Payment.Intents.Paying.{Pays, create_payment_intent-Pays}
use pactra.Tests.Samples.{crypto, transaction, active_row, spent_row, executor, intent, store_of}

abbrev mission : MissionRow
mission = record { id = 5; state = MissionState.authorized }

abbrev tables : Tables
tables = record {
  store = store_of active_row;
  missions = mission ∷ [];
  intents = [];
  outbox = [];
  webhook_events = [];
  next_uuid = 60;
}

abbrev bought : PaymentIntentRow
bought = record intent {
  id = 60;
  request_fingerprint =
      request_fingerprint crypto 5 11 active_row.transaction_digest transaction 41;
}

created :
    (create_payment_intent crypto executor (λ t. t) 5 11 32 41 200 tables).0
    ≡ ok (record { intent = bought; created = true })
unfolding create_payment_intent ◌>>=◌ pactra.Payment.Intents.Create.examine
    pactra.Payment.Intents.Create.find_by_idempotency_key pactra.Payment.Intents.Create.in_kernel
    pactra.Payment.Intents.Create.resolve_or_place pactra.Payment.Intents.Create.fresh
    pactra.Payment.Intents.Create.savepoint pactra.Payment.Intents.Create.end_savepoint
    pactra.Payment.Intents.Create.place_intent pactra.Payment.Intents.Create.announce
    pactra.Payment.Intents.Create.append_event pactra.Payment.Intents.Create.conclude
    pactra.Payment.Intents.Create.enqueue_create pactra.Payment.Intents.Create.insert_intent
    pactra.Payment.Intents.Create.queue_intent pactra.Payment.Intents.Create.start_payment
    place_or_resolve request_fingerprint pactra.Kernel.Capability.enforce_registered
    pactra.Kernel.Capability.permits
    pactra.Kernel.Authorization.Proof.verify_authorization_for_payment
    pactra.Kernel.Authorization.Rows.digests_match pactra.Kernel.Transaction.digest
    pactra.Kernel.Authorization.Rows.bound_of pactra.Kernel.Authorization.Proof.expected_scheme
    pactra.Kernel.Authorization.Lifecycle.consume_authorization
    pactra.Kernel.Authorization.Rows.apply_transition pactra.Kernel.Authorization.Rows.audit
    pactra.Kernel.Authorization.Rows.reload pactra.Kernel.Authorization.Proof.verify_origin
    pactra.Payment.State.assert_payment_transition pactra.Payment.State.can_transition
    pactra.Mission.can_transition pactra.Payment.Outbox.new_event
created = refl

create_payment_intent-Pays_example :
    Pays crypto 5 11 32 41 200 tables
      (drawn tables)
      (create_payment_intent crypto executor (λ t. t) 5 11 32 41 200 tables).1
      bought
create_payment_intent-Pays_example =
    create_payment_intent-Pays crypto executor (λ t. t) 5 11 32 41 200 tables created refl

-- The same request again, when the purchase is in the table.
abbrev bought_tables : Tables
bought_tables = record tables {
  store = store_of spent_row;
  missions = record mission { state = MissionState.payment_pending } ∷ [];
  intents = bought ∷ [];
}

reused :
    (create_payment_intent crypto executor (λ t. t) 5 11 32 41 300 bought_tables).0
    ≡ ok (record { intent = bought; created = false })
unfolding create_payment_intent ◌>>=◌ pactra.Payment.Intents.Create.examine
    pactra.Payment.Intents.Create.find_by_idempotency_key pactra.Payment.Intents.Create.in_kernel
    pactra.Payment.Intents.Create.resolve_or_place pactra.Payment.Intents.Create.fresh
    pactra.Payment.Intents.Create.savepoint pactra.Payment.Intents.Create.end_savepoint
    pactra.Payment.Intents.Create.place_intent pactra.Payment.Intents.Create.announce
    pactra.Payment.Intents.Create.append_event pactra.Payment.Intents.Create.conclude
    pactra.Payment.Intents.Create.enqueue_create pactra.Payment.Intents.Create.insert_intent
    pactra.Payment.Intents.Create.queue_intent pactra.Payment.Intents.Create.start_payment
    place_or_resolve request_fingerprint pactra.Kernel.Capability.enforce_registered
    pactra.Kernel.Capability.permits
    pactra.Kernel.Authorization.Proof.verify_authorization_for_payment
    pactra.Kernel.Authorization.Rows.digests_match pactra.Kernel.Transaction.digest
    pactra.Kernel.Authorization.Rows.bound_of pactra.Kernel.Authorization.Proof.expected_scheme
    pactra.Kernel.Authorization.Lifecycle.consume_authorization
    pactra.Kernel.Authorization.Rows.apply_transition pactra.Kernel.Authorization.Rows.audit
    pactra.Kernel.Authorization.Rows.reload pactra.Kernel.Authorization.Proof.verify_origin
    pactra.Payment.State.assert_payment_transition pactra.Payment.State.can_transition
    pactra.Mission.can_transition pactra.Payment.Outbox.new_event
    pactra.Payment.Intents.Create.resolve_existing
reused = refl

create_payment_intent-reuses_example :
    (bought ≡ bought)
    × (false ≡ false)
    × Untouched bought_tables
        (create_payment_intent crypto executor (λ t. t) 5 11 32 41 300 bought_tables).1
create_payment_intent-reuses_example =
    create_payment_intent-reuses crypto executor (λ t. t) 5 11 32 41 300 bought_tables bought refl
      reused

-- A request for another key with the same authorization is refused by its index.
abbrev second : Text → PaymentIntentRow
second id = new_intent id active_row 34 35 41 transaction

refused :
    is_created (place_or_resolve crypto (λ t. t) second transaction mission 300 bought_tables).0
    ≡ false
unfolding create_payment_intent ◌>>=◌ pactra.Payment.Intents.Create.examine
    pactra.Payment.Intents.Create.find_by_idempotency_key pactra.Payment.Intents.Create.in_kernel
    pactra.Payment.Intents.Create.resolve_or_place pactra.Payment.Intents.Create.fresh
    pactra.Payment.Intents.Create.savepoint pactra.Payment.Intents.Create.end_savepoint
    pactra.Payment.Intents.Create.place_intent pactra.Payment.Intents.Create.announce
    pactra.Payment.Intents.Create.append_event pactra.Payment.Intents.Create.conclude
    pactra.Payment.Intents.Create.enqueue_create pactra.Payment.Intents.Create.insert_intent
    pactra.Payment.Intents.Create.queue_intent pactra.Payment.Intents.Create.start_payment
    place_or_resolve request_fingerprint pactra.Kernel.Capability.enforce_registered
    pactra.Kernel.Capability.permits
    pactra.Kernel.Authorization.Proof.verify_authorization_for_payment
    pactra.Kernel.Authorization.Rows.digests_match pactra.Kernel.Transaction.digest
    pactra.Kernel.Authorization.Rows.bound_of pactra.Kernel.Authorization.Proof.expected_scheme
    pactra.Kernel.Authorization.Lifecycle.consume_authorization
    pactra.Kernel.Authorization.Rows.apply_transition pactra.Kernel.Authorization.Rows.audit
    pactra.Kernel.Authorization.Rows.reload pactra.Kernel.Authorization.Proof.verify_origin
    pactra.Payment.State.assert_payment_transition pactra.Payment.State.can_transition
    pactra.Mission.can_transition pactra.Payment.Outbox.new_event
refused = refl

place_or_resolve-atomic_example :
    Untouched
      (drawn bought_tables)
      (place_or_resolve crypto (λ t. t) second transaction mission 300 bought_tables).1
place_or_resolve-atomic_example =
    place_or_resolve-atomic crypto (λ t. t) second transaction mission 300 bought_tables refused
