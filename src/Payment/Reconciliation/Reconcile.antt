-- ===== src/Payment/Reconciliation/Reconcile.antt =====
-- `reconcile_intent` (services/payment_executor/reconciliation.py). Where it commits, after it has
-- closed the fence, other transactions can come in between: they are the argument `others`.
use pactra.Base.{Moment, Bool, not, ◌&&◌, Option, none, some, is_none, is_some, if◌then◌else◌}
use pactra.Action.{Action, pure, gets, ◌>>=◌, ◌>>◌}
use pactra.Kernel.Capability.{CapabilitySet, Capability, enforce_registered}
use pactra.Kernel.Transaction.{Crypto}
use pactra.Payment.State.{is_terminal}
use pactra.Payment.Rows.{PaymentIntentRow, ProviderPayment, Answer, answer, fails, PaymentProvider}
use pactra.Payment.Executor.Session.{
  ProviderCall, Session, DispatchResult, update_intent, record_call, validate_provider_route,
  verify_intent_authorization,
}
use pactra.Payment.Executor.Dispatch.{relock, already_terminal}
use pactra.Payment.Reconciliation.Branches.{
  lookup_failed, known_ambiguity, adopt_found, found_nothing,
}

unfoldable pub weigh :
    PaymentProvider → Moment → Option ProviderPayment → Action Session DispatchResult
weigh provider now none = found_nothing provider now
weigh provider now (some payment) = adopt_found payment now

unfoldable pub answered :
    PaymentProvider → Moment → Answer (Option ProviderPayment) → Action Session DispatchResult
answered provider now (fails error) = lookup_failed error now
answered provider now (answer payment) = do
  intent ← gets (λ s. s.intent)
  if is_some intent.provider_ambiguity_observed_at
      then known_ambiguity payment now
      else weigh provider now payment

-- The question to the provider, and what follows from its answer.
unfoldable pub ask_provider : PaymentProvider → Moment → Action Session DispatchResult
ask_provider provider now = do
  intent ← gets (λ s. s.intent)
  record_call (ProviderCall.get_payment intent.provider_payment_id intent.idempotency_key)
  answered provider now (provider.get_payment intent.provider_payment_id intent.idempotency_key)

-- `UPDATE … SET provider_create_fenced_at WHERE provider_create_fenced_at IS NULL`
abbrev pub shut_fence : Moment → PaymentIntentRow → PaymentIntentRow
shut_fence now intent =
    if is_none intent.provider_create_fenced_at
    then record intent { provider_create_fenced_at = some now }
    else intent

-- How the part before the commit ends: with a result, or with the fence shut and committed.
pub data Pause : Type 0 where
  done : DispatchResult → Pause
  shut : Pause

abbrev pub must_shut : PaymentProvider → PaymentIntentRow → Bool
must_shut provider intent =
    not provider.create_retries_are_idempotent && is_none intent.provider_create_fenced_at

unfoldable pub look_or_shut : Crypto → PaymentProvider → Moment → Action Session Pause
look_or_shut c provider now = do
  verify_intent_authorization c now
  intent ← gets (λ s. s.intent)
  if must_shut provider intent
      then (update_intent (shut_fence now) >>= λ _. pure shut)
      else (ask_provider provider now >>= λ r. pure (done r))

-- `reconcile_intent` up to the commit.
unfoldable pub open_reconcile :
    Crypto → PaymentProvider → CapabilitySet → Moment → Action Session Pause
open_reconcile c provider capabilities now = do
  enforce_registered capabilities Capability.payment_execute
  validate_provider_route provider
  intent ← gets (λ s. s.intent)
  if is_terminal intent.state
      then (already_terminal now >>= λ r. pure (done r))
      else look_or_shut c provider now

-- The rest, with the row locked again.
unfoldable pub behind_shut_fence : Crypto → PaymentProvider → Moment → Action Session DispatchResult
behind_shut_fence c provider now = do
  validate_provider_route provider
  intent ← gets (λ s. s.intent)
  if is_terminal intent.state
      then already_terminal now
      else (do verify_intent_authorization c now; ask_provider provider now)

unfoldable pub close_reconcile :
    Crypto
    → PaymentProvider
    → (PaymentIntentRow → PaymentIntentRow)
    → Moment
    → Pause
    → Action Session DispatchResult
close_reconcile c provider others now (done result) = pure result
close_reconcile c provider others now shut = do relock others; behind_shut_fence c provider now

unfoldable pub reconcile_intent :
    Crypto
    → PaymentProvider
    → CapabilitySet
    → (PaymentIntentRow → PaymentIntentRow)
    → Moment
    → Action Session DispatchResult
reconcile_intent c provider capabilities others now = do
  pause ← open_reconcile c provider capabilities now
  close_reconcile c provider others now pause
