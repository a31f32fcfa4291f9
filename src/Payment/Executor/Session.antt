-- ===== src/Payment/Executor/Session.antt =====
-- What one dispatch holds: the intent under its row lock, the claimed outbox event, the mission,
-- the kernel's tables with the audit log, the outbox rows that it adds, and the calls that it makes
-- to the provider.
use pactra.Base.{⊤, ℕ, Text, Moment, ◌+◌, Bool, not, ◌&&◌, Option, List, [], ◌∷◌, ◌++◌, ◌==◌, find}
use pactra.Domain.{Failure, ReasonCode, MissionState, EventType, Payload, Value}
use pactra.Action.{Action, gets, pure, or_raise, modify, raise_if, ◌>>=◌, ◌>>◌}
use pactra.Kernel.Transaction.{Crypto, BoundTransaction}
use pactra.Kernel.Authorization.Rows.{AuthorizationRow, consumed, Store, has_id}
use pactra.Kernel.Authorization.Proof.{verify_authorization_for_payment}
use pactra.Payment.State.{PaymentIntentState}
use pactra.Payment.Rows.{
  PaymentIntentRow, OutboxEventRow, OutboxEventType, PaymentRequest, PaymentProvider,
}
use pactra.Payment.Held
use pactra.Payment.Held.{Held}
use pactra.Payment.Outbox
use pactra.Payment.Outbox.{new_event, default_max_attempts}

pub data ProviderCall : Type 0 where
  get_payment : Option Text → Text → ProviderCall
  create_payment : PaymentRequest → ProviderCall

pub record Session : Type 0 where
  pub store : Store
  pub intent : PaymentIntentRow
  pub event : OutboxEventRow
  pub mission : Option MissionState
  pub outbox : List OutboxEventRow
  pub next_uuid : ℕ
  pub calls : List ProviderCall

pub record DispatchResult : Type 0 where
  pub state : PaymentIntentState
  pub provider_called : Bool
  pub retry_scheduled : Bool

-- A call of the security kernel inside the session.
unfoldable pub kernel : {A : Type 0} → Action Store A → Action Session A
kernel m s = let (r, t) = m s.store in (r, record s { store = t })

-- A change of the intent and its mission under the row lock.
unfoldable pub hold : {A : Type 0} → Action Held A → Action Session A
hold m s =
    let (r, h) = m (record { store = s.store; intent = s.intent; mission = s.mission }) in
    (r, record s { store = h.store; intent = h.intent; mission = h.mission })

unfoldable pub update_intent : (PaymentIntentRow → PaymentIntentRow) → Action Session ⊤
unfolding hold Held.update_intent
update_intent f = hold (Held.update_intent f)

unfoldable pub update_event : (OutboxEventRow → OutboxEventRow) → Action Session ⊤
unfolding ◌>>=◌
update_event f = modify λ s. record s { event = f s.event }

unfoldable pub record_call : ProviderCall → Action Session ⊤
unfolding ◌>>=◌
record_call call = modify λ s. record s { calls = s.calls ++ call ∷ [] }

unfoldable pub append_event : EventType → Payload → Action Session ⊤
unfolding hold Held.append_event
append_event event_type payload = hold (Held.append_event event_type payload)

-- `enqueue_outbox_event` for the intent, at once.
unfoldable pub enqueue : OutboxEventType → Moment → Action Session ⊤
unfolding ◌>>=◌ new_event
enqueue event_type now = modify λ s. record s {
  outbox =
      s.outbox
      ++ new_event s.next_uuid s.intent.id event_type
          (("idempotency_key", Value.text s.intent.idempotency_key) ∷ []) now default_max_attempts
          now
        ∷ [];
  next_uuid = s.next_uuid + 1;
}

unfoldable pub enqueue_reconciliation : Moment → Action Session ⊤
unfolding enqueue
enqueue_reconciliation now = enqueue OutboxEventType.payment_reconcile_requested now

unfoldable pub complete_event : Moment → Action Session ⊤
unfolding update_event Outbox.complete_event
complete_event now = update_event (Outbox.complete_event now)

-- `reschedule_event` of the claimed event: whether it is to be tried again.
unfoldable pub reschedule : Value → Moment → Action Session Bool
unfolding update_event Outbox.reschedule_event
reschedule detail now = do
  event ← gets (λ s. s.event)
  let rescheduled = Outbox.reschedule_event detail now event
  update_event (λ _. rescheduled.1)
  pure rescheduled.0

unfoldable pub apply_mission_state : MissionState → Action Session ⊤
unfolding hold Held.apply_mission_state
apply_mission_state target = hold (Held.apply_mission_state target)

unfoldable pub apply_payment_transition :
    PaymentIntentState → EventType → Payload → Option ReasonCode → Action Session ⊤
unfolding hold Held.apply_payment_transition
apply_payment_transition target event_type payload reason_code =
    hold (Held.apply_payment_transition target event_type payload reason_code)

-- `validate_provider_route`
unfoldable pub validate_provider_route : PaymentProvider → Action Session ⊤
validate_provider_route provider = do
  intent ← gets (λ s. s.intent)
  raise_if (not (provider.name == intent.provider)) Failure.payment_mismatch

-- The comparisons of `verify_intent_authorization_before_provider_io`.
unfoldable pub is_bound_to :
    AuthorizationRow → BoundTransaction → PaymentIntentRow → OutboxEventRow → Bool
is_bound_to authorization transaction intent event =
    authorization.mission_id == intent.mission_id
    && authorization.authorization_id == intent.authorization_id
    && authorization.transaction_digest == intent.transaction_digest
    && transaction.merchant_id == intent.merchant_id
    && transaction.amount_inr == intent.amount_inr
    && transaction.currency == intent.currency
    && event.payment_intent_id == intent.id

unfoldable pub verify_intent_authorization : Crypto → Moment → Action Session ⊤
unfolding kernel is_bound_to
verify_intent_authorization c now = do
  intent ← gets (λ s. s.intent)
  event ← gets (λ s. s.event)
  found ← gets (λ s. find (has_id intent.authorization_id) s.store.authorizations)
  authorization ← or_raise found Failure.not_found
  transaction ← kernel (verify_authorization_for_payment c authorization consumed now)
  raise_if (not (is_bound_to authorization transaction intent event)) Failure.binding_failure
