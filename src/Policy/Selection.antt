-- ===== src/Policy/Selection.antt =====
-- The decision on a mission's quotes, as services/agent_orchestrator/orchestrator.py composes it
-- from the normalization, the ranking and the policy engine.
use pactra.Base.{ℕ, Text, Option, none, some, List}
use pactra.Policy.Offers.{AuthenticatedQuote, ProvenancedOffer}
use pactra.Policy.Normalization.{MissionConstraints, normalize_offers}
use pactra.Policy.Ranking.{best_offer}
use pactra.Policy.Engine.{PolicyDecision, evaluate}

abbrev pub decide_on :
    MissionConstraints → ℕ → Option (List ProvenancedOffer) → Option PolicyDecision
decide_on c quantity none = none
decide_on c quantity (some offers) = some (evaluate c (best_offer offers) quantity)

-- None where the ingress refuses a context; `id` numbers the offers.
unfoldable pub decide :
    (Text → Text) → MissionConstraints → Text → List AuthenticatedQuote → ℕ → Option PolicyDecision
unfolding normalize_offers evaluate best_offer
decide upper c id quotes quantity = decide_on c quantity (normalize_offers upper c id quotes)
