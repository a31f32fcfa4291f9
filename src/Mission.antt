-- ===== src/Mission.antt =====
-- The state machine of a mission (services/agent_orchestrator/state_machine.py).
pub mod Reach
use pactra.Base.{⊤, ℕ, Bool, not, List, [], ◌∷◌, map, ◌==◌, contains}
use pactra.Domain.{
  Failure, MissionState, created, intent_parsed, discovering, offers_received, offers_normalized,
  ranked, policy_checked, awaiting_approval, authorized, payment_pending, payment_succeeded,
  payment_failed, completed, cancelled,
}
use pactra.Action.{Action, raise_if}

abbrev pub index : MissionState → ℕ
index created = 0
index intent_parsed = 1
index discovering = 2
index offers_received = 3
index offers_normalized = 4
index ranked = 5
index policy_checked = 6
index awaiting_approval = 7
index authorized = 8
index payment_pending = 9
index payment_succeeded = 10
index payment_failed = 11
index completed = 12
index cancelled = 13

abbrev pub allowed_transitions : MissionState → List MissionState
allowed_transitions created = intent_parsed ∷ cancelled ∷ []
allowed_transitions intent_parsed = discovering ∷ cancelled ∷ []
allowed_transitions discovering = offers_received ∷ cancelled ∷ []
allowed_transitions offers_received = offers_normalized ∷ cancelled ∷ []
allowed_transitions offers_normalized = ranked ∷ cancelled ∷ []
allowed_transitions ranked = policy_checked ∷ cancelled ∷ []
allowed_transitions policy_checked = awaiting_approval ∷ authorized ∷ cancelled ∷ []
allowed_transitions awaiting_approval = authorized ∷ cancelled ∷ []
allowed_transitions authorized = payment_pending ∷ cancelled ∷ []
allowed_transitions payment_pending = payment_succeeded ∷ payment_failed ∷ []
allowed_transitions payment_succeeded = completed ∷ []
allowed_transitions payment_failed = cancelled ∷ payment_pending ∷ []
allowed_transitions completed = []
allowed_transitions cancelled = []

unfoldable pub can_transition : MissionState → MissionState → Bool
can_transition current target = contains (index target) (map index (allowed_transitions current))

unfoldable pub assert_transition : {S : Type 0} → MissionState → MissionState → Action S ⊤
unfolding can_transition
assert_transition current target =
    raise_if (not (can_transition current target)) Failure.illegal_transition
