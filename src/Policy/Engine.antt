-- ===== src/Policy/Engine.antt =====
-- The policy engine (services/policy_engine/engine.py).
use pactra.Base.{ℕ, Text, ◌*◌, Option, none, some, List, [], ◌∷◌, ltb, if◌then◌else◌}
use pactra.Domain.{ReasonCode, PolicyOutcome}
use pactra.Policy.Offers.{ProvenancedOffer}
use pactra.Policy.Normalization.{MissionConstraints}

-- The version of the ruleset, one constant, is left out.
pub record PolicyDecision : Type 0 where
  pub decision : PolicyOutcome
  pub reason_codes : List ReasonCode
  pub requested_amount : Option ℕ
  pub soft_budget : ℕ
  pub hard_limit : ℕ
  pub selected_offer_id : Option Text

abbrev judged :
    MissionConstraints → Option ℕ → Option Text → PolicyOutcome → ReasonCode → PolicyDecision
judged c amount id outcome reason = record {
  decision = outcome;
  reason_codes = reason ∷ [];
  requested_amount = amount;
  soft_budget = c.soft_budget_inr;
  hard_limit = c.hard_limit_inr;
  selected_offer_id = id;
}

unfoldable pub evaluate : MissionConstraints → Option ProvenancedOffer → ℕ → PolicyDecision
evaluate c none quantity = judged c none none PolicyOutcome.deny ReasonCode.no_valid_offers
evaluate c (some best) quantity =
    let amount = best.amount_inr.value * quantity in
    let answer = judged c (some amount) (some best.offer_id) in
    if ltb c.hard_limit_inr amount
    then answer PolicyOutcome.deny ReasonCode.hard_limit_exceeded
    else if ltb c.soft_budget_inr amount
    then answer PolicyOutcome.require_approval ReasonCode.soft_budget_exceeded
    else answer PolicyOutcome.allow ReasonCode.within_limits
