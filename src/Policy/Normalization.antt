-- ===== src/Policy/Normalization.antt =====
-- The checks that make an offer valid (services/policy_engine/normalization.py).
use pactra.Base.{
  ℕ, suc, Text, Bool, true, false, not, Option, none, some, List, [], ◌∷◌, ◌++◌, ◌==◌, ltb,
  contains, if◌then◌else◌,
}
use pactra.Domain.{ReasonCode}
use pactra.Policy.Offers.{
  RawMerchantOffer, MerchantContext, AuthenticatedQuote, ProvenancedOffer, identity_mismatch,
  ingest_merchant_offer,
}

pub record MissionConstraints : Type 0 where
  pub soft_budget_inr : ℕ
  pub hard_limit_inr : ℕ
  pub min_rating : ℕ
  pub currency : Text
  pub allowed_merchants : Option (List Text)
  pub blocked_merchants : List Text
  pub min_merchant_trust : ℕ

-- `if test: reasons.append(reason)`, before the reasons that follow.
abbrev pub because : Bool → ReasonCode → List ReasonCode → List ReasonCode
because test reason rest = if test then reason ∷ rest else rest

abbrev pub is_allowed : Option (List Text) → Text → Bool
is_allowed none m = true
is_allowed (some ms) m = contains m ms

abbrev pub reasons_against : MissionConstraints → ProvenancedOffer → List ReasonCode
reasons_against c o = because (identity_mismatch o) ReasonCode.merchant_identity_mismatch (
    because (not (o.currency.value == c.currency)) ReasonCode.currency_not_allowed (
      because (not o.in_stock.value) ReasonCode.out_of_stock (
        because (ltb o.rating.value c.min_rating) ReasonCode.rating_below_min (
          because (ltb o.merchant_trust.value c.min_merchant_trust)
            ReasonCode.merchant_trust_too_low
            (because (not (is_allowed c.allowed_merchants o.merchant_id.value))
              ReasonCode.merchant_not_allowed
              (because (contains o.merchant_id.value c.blocked_merchants)
                ReasonCode.blocked_merchant []))))))

abbrev pub is_empty : List ReasonCode → Bool
is_empty [] = true
is_empty (_ ∷ _) = false

abbrev pub checked : MissionConstraints → ProvenancedOffer → ProvenancedOffer
checked c o = record o {
  valid = is_empty (reasons_against c o);
  rejection_reasons = reasons_against c o;
}

module _ (upper : Text → Text) (c : MissionConstraints) where
  abbrev pub check_ingested : Option ProvenancedOffer → Option ProvenancedOffer
  check_ingested none = none
  check_ingested (some o) = some (checked c o)

  unfoldable pub normalize_offer :
      Text → RawMerchantOffer → MerchantContext → Option ProvenancedOffer
  unfolding ingest_merchant_offer
  normalize_offer id raw context = check_ingested (ingest_merchant_offer upper id raw context)

  abbrev pub prepend :
      Option ProvenancedOffer → Option (List ProvenancedOffer) → Option (List ProvenancedOffer)
  prepend none rest = none
  prepend (some o) none = none
  prepend (some o) (some os) = some (o ∷ os)

  -- The offers of the quotes, each beside its context.
  abbrev pub with_context :
      MerchantContext → List RawMerchantOffer → List (MerchantContext × RawMerchantOffer)
  with_context context [] = []
  with_context context (raw ∷ raws) = (context, raw) ∷ with_context context raws

  abbrev pub pairs : List AuthenticatedQuote → List (MerchantContext × RawMerchantOffer)
  pairs [] = []
  pairs (q ∷ qs) = with_context q.context q.offers ++ pairs qs

  -- Offers are numbered as they are made.
  unfoldable pub normalize_from :
      Text → List (MerchantContext × RawMerchantOffer) → Option (List ProvenancedOffer)
  unfolding normalize_offer
  normalize_from id [] = some []
  normalize_from id (p ∷ ps) = prepend (normalize_offer id p.1 p.0) (normalize_from (suc id) ps)

  unfoldable pub normalize_offers : Text → List AuthenticatedQuote → Option (List ProvenancedOffer)
  unfolding normalize_from
  normalize_offers id quotes = normalize_from id (pairs quotes)
