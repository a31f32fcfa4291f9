-- ===== src/Payment/State.antt =====
-- The state machine of a payment intent (services/payment_executor/state_machine.py, and the
-- enumerations of packages/schemas/payment.py).
pub mod Reach
use pactra.Base.{⊤, ℕ, Bool, true, false, not, List, [], ◌∷◌, map, ◌==◌, contains, String}
use pactra.Domain.{Failure}
use pactra.Action.{Action, raise_if}

pub data PaymentIntentState : Type 0 where
  created queued processing provider_pending : PaymentIntentState
  succeeded failed_retryable failed_terminal cancelled : PaymentIntentState

-- The place of a state in the enumeration, by which states are compared.
abbrev pub index : PaymentIntentState → ℕ
index created = 0
index queued = 1
index processing = 2
index provider_pending = 3
index succeeded = 4
index failed_retryable = 5
index failed_terminal = 6
index cancelled = 7

abbrev pub state_eq : PaymentIntentState → PaymentIntentState → Bool
state_eq a b = index a == index b

abbrev pub state_word : PaymentIntentState → String
state_word created = "CREATED"
state_word queued = "QUEUED"
state_word processing = "PROCESSING"
state_word provider_pending = "PROVIDER_PENDING"
state_word succeeded = "SUCCEEDED"
state_word failed_retryable = "FAILED_RETRYABLE"
state_word failed_terminal = "FAILED_TERMINAL"
state_word cancelled = "CANCELLED"

-- `state in states`
abbrev pub is_in : PaymentIntentState → List PaymentIntentState → Bool
is_in s states = contains (index s) (map index states)

abbrev pub terminal_payment_states : List PaymentIntentState
terminal_payment_states = succeeded ∷ failed_terminal ∷ cancelled ∷ []

abbrev pub allowed_payment_transitions : PaymentIntentState → List PaymentIntentState
allowed_payment_transitions created = queued ∷ cancelled ∷ []
allowed_payment_transitions queued = processing ∷ provider_pending ∷ cancelled ∷ []
allowed_payment_transitions processing =
    succeeded ∷ provider_pending ∷ failed_retryable ∷ failed_terminal ∷ []
allowed_payment_transitions provider_pending = succeeded ∷ failed_terminal ∷ failed_retryable ∷ []
allowed_payment_transitions failed_retryable =
    queued ∷ provider_pending ∷ failed_terminal ∷ cancelled ∷ []
allowed_payment_transitions succeeded = []
allowed_payment_transitions failed_terminal = []
allowed_payment_transitions cancelled = []

unfoldable pub can_transition : PaymentIntentState → PaymentIntentState → Bool
can_transition current target = is_in target (allowed_payment_transitions current)

unfoldable pub assert_payment_transition :
    {S : Type 0} → PaymentIntentState → PaymentIntentState → Action S ⊤
unfolding can_transition
assert_payment_transition current target =
    raise_if (not (can_transition current target)) Failure.illegal_transition

unfoldable pub is_terminal : PaymentIntentState → Bool
is_terminal state = is_in state terminal_payment_states

pub data ProviderPaymentStatus : Type 0 where
  created pending succeeded failed : ProviderPaymentStatus

unfoldable pub provider_status_to_state : ProviderPaymentStatus → PaymentIntentState
provider_status_to_state ProviderPaymentStatus.created = PaymentIntentState.provider_pending
provider_status_to_state ProviderPaymentStatus.pending = PaymentIntentState.provider_pending
provider_status_to_state ProviderPaymentStatus.succeeded = PaymentIntentState.succeeded
provider_status_to_state ProviderPaymentStatus.failed = PaymentIntentState.failed_terminal

abbrev pub status_word : ProviderPaymentStatus → String
status_word ProviderPaymentStatus.created = "CREATED"
status_word ProviderPaymentStatus.pending = "PENDING"
status_word ProviderPaymentStatus.succeeded = "SUCCEEDED"
status_word ProviderPaymentStatus.failed = "FAILED"
