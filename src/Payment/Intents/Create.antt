-- ===== src/Payment/Intents/Create.antt =====
-- `create_payment_intent` (services/payment_executor/intents.py) and `request_fingerprint`
-- (packages/schemas/payment.py). What other transactions commit between the first reads and the
-- insert is the argument `others`.
use pactra.Base.{
  ⊤, Text, Moment, ◌+◌, Bool, true, false, not, ◌&&◌, ◌||◌, Option, none, some, List, [], ◌∷◌, ◌++◌,
  ◌==◌, String, is_none, is_some, find, update_where, if◌then◌else◌,
}
use pactra.Domain.{Failure, ReasonCode, MissionState, EventType, Payload, Value}
use pactra.Action.{
  Result, ok, raised, Action, pure, raise, gets, or_raise, modify, raise_if, when, ◌>>=◌, ◌>>◌,
}
use pactra.Mission
use pactra.Kernel.Capability.{CapabilitySet, Capability, enforce_registered}
use pactra.Kernel.Transaction.{Crypto, CanonicalValue, BoundTransaction, canonical_digest}
use pactra.Kernel.Authorization.Rows.{
  AuthorizationRow, AuthorizationStatus, active, consumed, Store, has_id,
}
use pactra.Kernel.Authorization.Proof.{verify_authorization_for_payment}
use pactra.Kernel.Authorization.Lifecycle.{consume_authorization}
use pactra.Payment.State.{created, queued, state_word, assert_payment_transition}
use pactra.Payment.Rows.{PaymentIntentRow, OutboxEventType}
use pactra.Payment.Outbox.{new_event, default_max_attempts}
use pactra.Payment.Tables.{MissionRow, Tables, is_intent, is_mission}

-- `PAYMENT_REQUEST_FINGERPRINT_DOMAIN = "pactra-payment-request-v1"`
abbrev pub fingerprint_domain : String
fingerprint_domain = "pactra-payment-request-v1"

unfoldable pub request_fingerprint : Crypto → Text → Text → Text → BoundTransaction → Text → Text
unfolding canonical_digest
request_fingerprint c mission_id authorization_id transaction_digest tx provider =
    canonical_digest c fingerprint_domain (
      ("mission_id", CanonicalValue.s mission_id)
      ∷ ("authorization_id", CanonicalValue.s authorization_id)
      ∷ ("transaction_digest", CanonicalValue.s transaction_digest)
      ∷ ("amount_inr", CanonicalValue.i tx.amount_inr)
      ∷ ("currency", CanonicalValue.s tx.currency)
      ∷ ("merchant_id", CanonicalValue.s tx.merchant_id)
      ∷ ("provider", CanonicalValue.s provider)
      ∷ [])

pub record PaymentIntentResult : Type 0 where
  pub intent : PaymentIntentRow
  pub created : Bool

-- A call of the security kernel inside the transaction.
unfoldable pub in_kernel : {A : Type 0} → Action Store A → Action Tables A
in_kernel m t = let (r, s) = m t.store in (r, record t { store = s })

unfoldable pub append_event : Text → EventType → Payload → Action Tables ⊤
unfolding ◌>>=◌
append_event mission_id event_type payload = modify λ t. record t {
  store = record t.store {
    audit =
        t.store.audit
        ++ record {
          mission_id = mission_id;
          event_type = event_type;
          actor = "payment-executor";
          payload = payload;
        }
          ∷ [];
  };
}

-- `uq_payment_intents_idempotency_key` and `uq_payment_intents_authorization_id`
abbrev pub has_key : Text → PaymentIntentRow → Bool
has_key idempotency_key row = row.idempotency_key == idempotency_key

abbrev pub pays_for : Text → PaymentIntentRow → Bool
pays_for authorization_id row = row.authorization_id == authorization_id

-- `find_by_idempotency_key`
unfoldable pub find_by_idempotency_key : Text → Action Tables (Option PaymentIntentRow)
unfolding ◌>>=◌
find_by_idempotency_key key = gets (λ t. find (has_key key) t.intents)

-- `_resolve_existing`
unfoldable pub resolve_existing :
    Crypto → PaymentIntentRow → Text → Text → Action Tables PaymentIntentResult
resolve_existing c existing fingerprint idempotency_key =
    if existing.request_fingerprint == fingerprint
    then (do
      append_event existing.mission_id EventType.payment_intent_reused (
          ("payment_intent_id", Value.text existing.id)
          ∷ ("idempotency_key", Value.text idempotency_key)
          ∷ ("state", Value.word (state_word existing.state))
          ∷ ("authorization_consumed", Value.flag false)
          ∷ [])
      pure (record { intent = existing; created = false }))
    else (do
      append_event existing.mission_id EventType.idempotency_conflict (
          ("reason_code", Value.reason ReasonCode.idempotency_conflict)
          ∷ ("idempotency_key", Value.text idempotency_key)
          ∷ ("existing_payment_intent_id", Value.text existing.id)
          ∷ ("existing_fingerprint_prefix", Value.prefix existing.request_fingerprint)
          ∷ ("presented_fingerprint_prefix", Value.prefix fingerprint)
          ∷ [])
      raise Failure.idempotency_conflict)

-- The row of a new intent.
abbrev pub new_intent :
    Text → AuthorizationRow → Text → Text → Text → BoundTransaction → PaymentIntentRow
new_intent id authorization idempotency_key fingerprint provider tx = record {
  id = id;
  mission_id = authorization.mission_id;
  authorization_id = authorization.authorization_id;
  transaction_digest = authorization.transaction_digest;
  idempotency_key = idempotency_key;
  request_fingerprint = fingerprint;
  amount_inr = tx.amount_inr;
  currency = tx.currency;
  merchant_id = tx.merchant_id;
  provider = provider;
  provider_payment_id = none;
  provider_order_id = none;
  provider_transaction_id = none;
  provider_receipt = none;
  provider_status = none;
  provider_attempts = none;
  provider_create_fenced_at = none;
  provider_ambiguity_observed_at = none;
  state = created;
  attempts = 0;
  last_reason_code = none;
}

-- Whether a unique index refuses the row.
abbrev pub collides : PaymentIntentRow → List PaymentIntentRow → Bool
collides row rows =
    is_some (find (has_key row.idempotency_key) rows)
    || is_some (find (pays_for row.authorization_id) rows)

-- `session.add(intent); await session.flush()`
unfoldable pub insert_intent : PaymentIntentRow → Action Tables ⊤
insert_intent row = do
  collision ← gets (λ t. collides row t.intents)
  raise_if collision Failure.integrity_error
  modify (λ t. record t { intents = row ∷ t.intents })

-- `intent.state = QUEUED`, written at the next flush.
unfoldable pub queue_intent : Text → Action Tables ⊤
unfolding ◌>>=◌
queue_intent id = do
  assert_payment_transition created queued
  modify (λ t. record t {
    intents = update_where (is_intent id) (λ i. record i { state = queued }) t.intents;
  })

unfoldable pub enqueue_create : PaymentIntentRow → Moment → Action Tables ⊤
unfolding ◌>>=◌ new_event
enqueue_create intent now = modify λ t. record t {
  outbox =
      t.outbox
      ++ new_event t.next_uuid intent.id OutboxEventType.payment_create_requested
          (("idempotency_key", Value.text intent.idempotency_key) ∷ []) now default_max_attempts now
        ∷ [];
  next_uuid = t.next_uuid + 1;
}

abbrev pub paying : MissionRow → MissionRow
paying mission = record mission { state = MissionState.payment_pending }

unfoldable pub start_payment : MissionRow → Action Tables ⊤
unfolding ◌>>=◌ Mission.can_transition
start_payment mission =
    when (Mission.can_transition mission.state MissionState.payment_pending)
      (modify (λ t. record t { missions = update_where (is_mission mission.id) paying t.missions }))

-- The state of the new intent, its audit events, its outbox event and the mission.
unfoldable pub announce :
    PaymentIntentRow → BoundTransaction → MissionRow → Moment → Action Tables ⊤
announce intent tx mission now = do
  queue_intent intent.id
  append_event intent.mission_id EventType.payment_intent_created (
      ("payment_intent_id", Value.text intent.id)
      ∷ ("authorization_id", Value.text intent.authorization_id)
      ∷ ("idempotency_key", Value.text intent.idempotency_key)
      ∷ ("transaction_digest_prefix", Value.prefix intent.transaction_digest)
      ∷ ("amount_inr", Value.number tx.amount_inr)
      ∷ ("currency", Value.text tx.currency)
      ∷ ("merchant_id", Value.text tx.merchant_id)
      ∷ ("provider", Value.text intent.provider)
      ∷ [])
  append_event intent.mission_id EventType.payment_queued
      (("payment_intent_id", Value.text intent.id) ∷ ("state", Value.word (state_word queued)) ∷ [])
  enqueue_create intent now
  start_payment mission

-- What happens inside the savepoint.
unfoldable pub place_intent :
    Crypto → PaymentIntentRow → BoundTransaction → MissionRow → Moment → Action Tables ⊤
place_intent c intent tx mission now = do
  insert_intent intent
  in_kernel (consume_authorization c intent.authorization_id tx now)
  announce intent tx mission now

-- `async with session.begin_nested()` under `except IntegrityError`: an exception rolls the tables
-- back, and a violated index is then `none`. The identifiers that were drawn stay drawn.
rolled_back : Tables → Tables → Tables
rolled_back before after = record before { next_uuid = after.next_uuid }

unfoldable pub end_savepoint :
    {A : Type 0} → Result A → Tables → Tables → Result (Option A) × Tables
unfolding rolled_back
end_savepoint (ok a) before after = (ok (some a), after)
end_savepoint (raised Failure.integrity_error) before after = (ok none, rolled_back before after)
end_savepoint (raised other) before after = (raised other, rolled_back before after)

unfoldable pub savepoint : {A : Type 0} → Action Tables A → Action Tables (Option A)
savepoint m t = let (r, t') = m t in end_savepoint r t t'

unfoldable pub fresh : Action Tables Text
unfolding ◌>>=◌
fresh = do
  id ← gets (λ t. t.next_uuid)
  modify (λ t. record t { next_uuid = t.next_uuid + 1 })
  pure id

-- The end of a request: the intent is in the table, or another request won its index.
unfoldable pub conclude : Crypto → PaymentIntentRow → Option ⊤ → Action Tables PaymentIntentResult
conclude c intent (some _) =
    pure (record { intent = record intent { state = queued }; created = true })
conclude c intent none = do
  found ← find_by_idempotency_key intent.idempotency_key
  winner ← or_raise found Failure.integrity_error
  resolve_existing c winner intent.request_fingerprint intent.idempotency_key

unfoldable pub place_or_resolve :
    Crypto
    → (Tables → Tables)
    → (Text → PaymentIntentRow)
    → BoundTransaction
    → MissionRow
    → Moment
    → Action Tables PaymentIntentResult
place_or_resolve c others row tx mission now = do
  id ← fresh
  modify others
  placed ← savepoint (place_intent c (row id) tx mission now)
  conclude c (row id) placed

-- The status that the authorization must have.
abbrev pub expected_status : Option PaymentIntentRow → Text → AuthorizationStatus
expected_status none authorization_id = active
expected_status (some existing) authorization_id =
    if existing.authorization_id == authorization_id then consumed else active

unfoldable pub resolve_or_place :
    Crypto
    → (Tables → Tables)
    → AuthorizationRow
    → Text
    → Text
    → BoundTransaction
    → MissionRow
    → Moment
    → Option PaymentIntentRow
    → Action Tables PaymentIntentResult
unfolding request_fingerprint
resolve_or_place c others authorization key provider tx mission now existing =
    let fingerprint =
      request_fingerprint c authorization.mission_id authorization.authorization_id
        authorization.transaction_digest tx provider in
    elim existing [
      | some held ↦ resolve_existing c held fingerprint key
      | none ↦
          place_or_resolve c others (λ id. new_intent id authorization key fingerprint provider tx)
            tx mission now
    ]

-- What the request finds before it writes anything.
pub record Examined : Type 0 where
  pub authorization : AuthorizationRow
  pub existing : Option PaymentIntentRow
  pub mission : MissionRow
  pub transaction : BoundTransaction

unfoldable pub examine :
    Crypto → CapabilitySet → Text → Text → Text → Moment → Action Tables Examined
examine c capabilities mission_id authorization_id key now = do
  enforce_registered capabilities Capability.payment_execute
  held ← gets (λ t. find (has_id authorization_id) t.store.authorizations)
  authorization ← or_raise held Failure.not_found
  raise_if (not (authorization.mission_id == mission_id)) Failure.request_rejected
  existing ← find_by_idempotency_key key
  found ← gets (λ t. find (is_mission mission_id) t.missions)
  mission ← or_raise found Failure.request_rejected
  raise_if
      (is_none existing
        && not (Mission.index mission.state == Mission.index MissionState.authorized))
      Failure.mission_not_authorized
  tx ← in_kernel (
      verify_authorization_for_payment c authorization (expected_status existing authorization_id)
        now)
  pure (record {
    authorization = authorization;
    existing = existing;
    mission = mission;
    transaction = tx;
  })

unfoldable pub create_payment_intent :
    Crypto
    → CapabilitySet
    → (Tables → Tables)
    → Text
    → Text
    → Text
    → Text
    → Moment
    → Action Tables PaymentIntentResult
create_payment_intent c capabilities others mission_id authorization_id key provider now = do
  x ← examine c capabilities mission_id authorization_id key now
  resolve_or_place c others x.authorization key provider x.transaction x.mission now x.existing
