-- ===== src/Tests/Decisions.antt =====
-- Decisions and protected fields on concrete data.
use pactra.Base.{ℕ, ◌≡◌, refl, true, none, some, List, [], ◌∷◌, arith}
use pactra.Domain.{PolicyOutcome, ReasonCode}
use pactra.Policy.Provenance.{policy_field, authoritative_value, merchant, untrusted_value}
use pactra.Policy.Register.{Entry, Claim, apply_all, apply_all-unchanged}
use pactra.Policy.Offers.{AuthenticatedQuote, rounded, ingest_merchant_offer}
use pactra.Policy.Normalization.{
  MissionConstraints, normalize_offer, normalize_from, normalize_offers,
}
use pactra.Policy.Ranking.{rank_offers, best_offer}
use pactra.Policy.Engine.{PolicyDecision, evaluate}
use pactra.Policy.Selection.{decide}
use pactra.Policy.Decided.{Permits, decide-Permits}

-- Two and a half is rounded to two, three and a half to four.
half_to_even :
    (rounded (record { mantissa = 5; shift = 1 }) ≡ 2)
    × (rounded (record { mantissa = 7; shift = 1 }) ≡ 4)
unfolding rounded
half_to_even = (refl, refl)

abbrev constraints : MissionConstraints
constraints = record {
  soft_budget_inr = 300;
  hard_limit_inr = 500;
  min_rating = 3;
  currency = 23;
  allowed_merchants = none;
  blocked_merchants = 29 ∷ [];
  min_merchant_trust = 2;
}

-- The quotes of the merchant 21, and of the merchant 20, which claims to be 21.
abbrev quotes : List AuthenticatedQuote
quotes =
    record {
      context = record { merchant_id = 21; record_id = 21; trust_score = 6 };
      offers =
          record {
            merchant_id = 21;
            product_id = 22;
            price = record { mantissa = 799; shift = 1 };
            currency = 23;
            rating = 4;
            in_stock = true;
          }
          ∷ [];
    }
    ∷ record {
      context = record { merchant_id = 20; record_id = 20; trust_score = 6 };
      offers =
          record {
            merchant_id = 21;
            product_id = 22;
            price = record { mantissa = 1; shift = 0 };
            currency = 23;
            rating = 5;
            in_stock = true;
          }
          ∷ [];
    }
    ∷ []

abbrev ruling : PolicyDecision
ruling = record {
  decision = PolicyOutcome.require_approval;
  reason_codes = ReasonCode.soft_budget_exceeded ∷ [];
  requested_amount = some 400;
  soft_budget = 300;
  hard_limit = 500;
  selected_offer_id = some 60;
}

decided : decide (λ t. t) constraints 60 quotes 1 ≡ some ruling
unfolding decide normalize_offers normalize_from normalize_offer ingest_merchant_offer rounded
    best_offer rank_offers evaluate
decided = refl

decide-Permits_example : Permits (λ t. t) constraints 60 quotes 1 ruling
decide-Permits_example = decide-Permits (λ t. t) constraints 60 quotes 1 decided refl

-- The hard limit, and a merchant's attempt to raise it.
abbrev limits : List (Entry ℕ)
limits = record { field = 2; held = authoritative_value 500 (policy_field 2) } ∷ []

abbrev raises : List (Claim ℕ)
raises = record { target = 2; incoming = untrusted_value 90000 (merchant 21) } ∷ []

apply_all-unchanged_example : apply_all raises limits ≡ limits
apply_all-unchanged_example =
    apply_all-unchanged raises limits (λ field e h. ground arith) (omega arith, tt)
