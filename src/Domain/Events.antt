-- ===== src/Domain/Events.antt =====
-- `EventType`, and the entry that `append_event` is called with: the payload is the list of its
-- keys and values, in the order written.
use Prim.Native.Nat.{ℕ}
use Prim.Native.String.{String}
use mathlib.Core.Bool.{Bool}
use mathlib.Core.Option.{Option, none, some}
use mathlib.Core.List.{List}
use pactra.Base.{Text, Moment}
use pactra.Domain.Codes.{ReasonCode}

pub data EventType : Type 0 where
  mission_created intent_parsed discovery_started offers_received offers_normalized : EventType
  offers_ranked policy_decision approval_requested mission_denied security_violation : EventType
  authorization_created authorization_activated authorization_consumed : EventType
  authorization_expired authorization_revoked authorization_replay_detected : EventType
  transaction_binding_failure payment_intent_created payment_queued payment_attempted : EventType
  payment_provider_timeout payment_provider_uncertain payment_retry_scheduled : EventType
  payment_reconciled payment_succeeded payment_failed payment_intent_reused : EventType
  idempotency_conflict outbox_event_dead_lettered webhook_verified webhook_rejected : EventType
  duplicate_webhook_ignored webhook_out_of_order_ignored risk_assessed : EventType

-- A value of a payload. `prefix` is the start of a digest, `[:DIGEST_LOG_PREFIX]`; `moment` is an
-- instant as `isoformat` prints it; `reason` is the text of a reason code; `message` is a text for
-- people with the provider's own detail behind it.
pub data Value : Type 0 where
  text : Text → Value
  prefix : Text → Value
  word : String → Value
  number : ℕ → Value
  flag : Bool → Value
  moment : Moment → Value
  reason : ReasonCode → Value
  message : String → Option Text → Value
  null : Value

abbrev pub Payload : Type 0
Payload = List (String × Value)

abbrev pub opt_text : Option Text → Value
opt_text none = null
opt_text (some t) = text t

abbrev pub opt_number : Option ℕ → Value
opt_number none = null
opt_number (some n) = number n

abbrev pub opt_reason : Option ReasonCode → Value
opt_reason none = null
opt_reason (some c) = reason c

abbrev pub opt_moment : Option Moment → Value
opt_moment none = null
opt_moment (some m) = moment m

-- The arguments of one call of `append_event`.
pub record AuditEntry : Type 0 where
  pub mission_id : Text
  pub event_type : EventType
  pub actor : String
  pub payload : Payload
