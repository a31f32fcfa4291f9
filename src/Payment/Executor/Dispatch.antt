-- ===== src/Payment/Executor/Dispatch.antt =====
-- `acquire_provider_create_fence` and `dispatch_create`
-- (services/payment_executor/executor.py). The commit of the fence gives up the row lock: what other
-- transactions do to the intent before it is locked again is the argument `others`.
use pactra.Base.{
  ⊤, Moment, Bool, true, false, not, ◌&&◌, ◌||◌, some, is_none, is_some, if◌then◌else◌,
}
use pactra.Domain.{Failure}
use pactra.Action.{Action, pure, gets, raise_if, ◌>>=◌, ◌>>◌}
use pactra.Kernel.Capability.{CapabilitySet, Capability, enforce_registered}
use pactra.Kernel.Transaction.{Crypto}
use pactra.Payment.State.{queued, provider_pending, state_eq, is_terminal}
use pactra.Payment.Rows.{PaymentIntentRow, PaymentProvider}
use pactra.Payment.Executor.Session.{
  Session, DispatchResult, update_intent, enqueue_reconciliation, complete_event,
  validate_provider_route, verify_intent_authorization,
}
use pactra.Payment.Executor.Uncertain.{requeue_retryable}
use pactra.Payment.Executor.Create.{search_and_create}
use pactra.Payment.Executor.Recover.{recover_fenced_create}

-- The compare-and-set on the row, and whether it won.
abbrev pub fence_open : PaymentIntentRow → Bool
fence_open intent = state_eq intent.state queued && is_none intent.provider_create_fenced_at

unfoldable pub acquire_provider_create_fence : Moment → Action Session Bool
acquire_provider_create_fence now = do
  intent ← gets (λ s. s.intent)
  update_intent (λ i. if fence_open i then record i { provider_create_fenced_at = some now } else i)
  pure (fence_open intent)

-- The rest of a dispatch after the fence was committed and the row locked again.
unfoldable pub behind_fence :
    Crypto → PaymentProvider → Bool → Moment → Action Session DispatchResult
behind_fence c provider fence_acquired now = do
  validate_provider_route provider
  intent ← gets (λ s. s.intent)
  raise_if (is_none intent.provider_create_fenced_at) Failure.runtime_error
  if not fence_acquired || not (state_eq intent.state queued)
      then recover_fenced_create c provider now
      else (do verify_intent_authorization c now; search_and_create c provider now)

-- What precedes the fence: a retryable intent is queued again, anything else but a queued one is
-- illegal, and the authorization is verified.
unfoldable pub prepare_create : Crypto → Moment → Action Session ⊤
prepare_create c now = do
  requeue_retryable
  intent ← gets (λ s. s.intent)
  raise_if (not (state_eq intent.state queued)) Failure.illegal_transition
  verify_intent_authorization c now

unfoldable pub relock : (PaymentIntentRow → PaymentIntentRow) → Action Session ⊤
relock others = update_intent others

abbrev pub must_recover : PaymentProvider → PaymentIntentRow → Bool
must_recover provider intent =
    not provider.create_retries_are_idempotent && is_some intent.provider_create_fenced_at

unfoldable pub already_terminal : Moment → Action Session DispatchResult
already_terminal now = do
  intent ← gets (λ s. s.intent)
  complete_event now
  pure (record { state = intent.state; provider_called = false; retry_scheduled = false })

unfoldable pub already_pending : Moment → Action Session DispatchResult
already_pending now = do
  enqueue_reconciliation now
  complete_event now
  pure (record { state = provider_pending; provider_called = false; retry_scheduled = true })

-- How the part of a dispatch before the commit of the fence ends: with a result, or with the fence
-- committed and whether this call acquired it.
pub data Opening : Type 0 where
  finished : DispatchResult → Opening
  committed : Bool → Opening

-- `create_retries_are_idempotent` needs no fence.
unfoldable pub start_create : Crypto → PaymentProvider → Moment → Action Session Opening
start_create c provider now = do
  prepare_create c now
  if provider.create_retries_are_idempotent
      then (search_and_create c provider now >>= λ r. pure (finished r))
      else (acquire_provider_create_fence now >>= λ acquired. pure (committed acquired))

-- The early returns of a dispatch, in their order.
unfoldable pub choose_path :
    Crypto → PaymentProvider → Moment → PaymentIntentRow → Action Session Opening
choose_path c provider now intent =
    if is_terminal intent.state
    then (already_terminal now >>= λ r. pure (finished r))
    else if must_recover provider intent
    then (recover_fenced_create c provider now >>= λ r. pure (finished r))
    else if state_eq intent.state provider_pending
    then (already_pending now >>= λ r. pure (finished r))
    else start_create c provider now

-- `dispatch_create` up to the commit of the fence.
unfoldable pub open_dispatch :
    Crypto → PaymentProvider → CapabilitySet → Moment → Action Session Opening
open_dispatch c provider capabilities now = do
  enforce_registered capabilities Capability.payment_execute
  validate_provider_route provider
  intent ← gets (λ s. s.intent)
  choose_path c provider now intent

unfoldable pub close_dispatch :
    Crypto
    → PaymentProvider
    → (PaymentIntentRow → PaymentIntentRow)
    → Moment
    → Opening
    → Action Session DispatchResult
close_dispatch c provider others now (finished result) = pure result
close_dispatch c provider others now (committed acquired) = do
  relock others
  behind_fence c provider acquired now

unfoldable pub dispatch_create :
    Crypto
    → PaymentProvider
    → CapabilitySet
    → (PaymentIntentRow → PaymentIntentRow)
    → Moment
    → Action Session DispatchResult
dispatch_create c provider capabilities others now = do
  opening ← open_dispatch c provider capabilities now
  close_dispatch c provider others now opening
