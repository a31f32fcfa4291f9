-- ===== src/Payment/Tables.antt =====
-- The tables that the payment services share (apps/api/db/models.py), with the audit log.
use pactra.Base.{ℕ, ◌≡◌, refl, ◌∙◌, Text, Bool, Option, none, some, List, ◌==◌, update_where}
use pactra.Domain.{MissionState}
use pactra.Kernel.Authorization.Rows.{Store}
use pactra.Payment.Rows.{PaymentIntentRow, OutboxEventRow}
use pactra.Payment.Webhooks.Events.{WebhookEventRow}

-- The columns of a mission that the payment services read and write.
pub record MissionRow : Type 0 where
  pub id : Text
  pub state : MissionState

-- `next_uuid` is the next result of `uuid4`.
pub record Tables : Type 0 where
  pub store : Store
  pub missions : List MissionRow
  pub intents : List PaymentIntentRow
  pub outbox : List OutboxEventRow
  pub webhook_events : List WebhookEventRow
  pub next_uuid : ℕ

abbrev pub is_intent : Text → PaymentIntentRow → Bool
is_intent id row = row.id == id

abbrev pub is_mission : Text → MissionRow → Bool
is_mission id row = row.id == id

abbrev pub state_of : Option MissionRow → Option MissionState
state_of none = none
state_of (some mission) = some mission.state

-- `mission.state = state`
abbrev pub set_mission : Text → Option MissionState → List MissionRow → List MissionRow
set_mission id none missions = missions
set_mission id (some state) missions =
    update_where (is_mission id) (λ m. record m { state = state }) missions

-- The rows of payments, missions, authorizations and events are as they were.
pub record Untouched (t u : Tables) : Type 0 where
  pub intents : u.intents ≡ t.intents
  pub missions : u.missions ≡ t.missions
  pub outbox : u.outbox ≡ t.outbox
  pub webhook_events : u.webhook_events ≡ t.webhook_events
  pub authorizations : u.store.authorizations ≡ t.store.authorizations

pub Untouched-refl : (t : Tables) → Untouched t t
Untouched-refl t = record {
  intents = refl;
  missions = refl;
  outbox = refl;
  webhook_events = refl;
  authorizations = refl;
}

pub Untouched-trans : (t u v : Tables) → Untouched t u → Untouched u v → Untouched t v
Untouched-trans t u v p q = record {
  intents = q.intents ∙ p.intents;
  missions = q.missions ∙ p.missions;
  outbox = q.outbox ∙ p.outbox;
  webhook_events = q.webhook_events ∙ p.webhook_events;
  authorizations = q.authorizations ∙ p.authorizations;
}
