-- ===== src/Policy/Offers.antt =====
-- Offers (packages/schemas/domain.py, merchant.py and kernel.py) and their trusted ingress
-- (services/security_kernel/ingress.py). A rating or a trust score is a non-negative double that is
-- only compared: it is the number that its bits spell, which has its order. `str.upper` is an
-- argument, and the display texts are left out.
use pactra.Base.{
  ℕ, suc, Text, ◌*◌, ◌-◌, ◌/◌, ◌^◌, Bool, true, not, Option, none, some, List, [], ◌==◌, ltb,
  if◌then◌else◌,
}
use pactra.Domain.{ReasonCode}
use pactra.Policy.Provenance.{
  merchant, merchant_identity, merchant_registry, Provenanced, system_value, trusted_value,
  untrusted_value, map_value,
}

-- A finite non-negative double: mantissa / 2 ^ shift.
pub record Double : Type 0 where
  pub mantissa : ℕ
  pub shift : ℕ

-- `int(round(p))`: to the nearest integer, a tie to the even one.
unfoldable pub rounded : Double → ℕ
rounded p =
    let unit = 2 ^ p.shift in
    let whole = p.mantissa / unit in
    let twice = 2 * (p.mantissa - whole * unit) in
    if ltb twice unit
    then whole
    else if ltb unit twice
    then suc whole
    else if whole - (whole / 2) * 2 == 0
    then whole
    else suc whole

-- What the merchant's agent sends; the claims go to the policy register.
pub record RawMerchantOffer : Type 0 where
  pub merchant_id : Text
  pub product_id : Text
  pub price : Double
  pub currency : Text
  pub rating : ℕ
  pub in_stock : Bool

-- The authenticated identity and the record of the registry.
pub record MerchantContext : Type 0 where
  pub merchant_id : Text
  pub record_id : Text
  pub trust_score : ℕ

pub record AuthenticatedQuote : Type 0 where
  pub context : MerchantContext
  pub offers : List RawMerchantOffer

pub record ProvenancedOffer : Type 0 where
  pub offer_id : Text
  pub merchant_id : Provenanced Text
  pub merchant_trust : Provenanced ℕ
  pub claimed_merchant_id : Provenanced Text
  pub product_id : Provenanced Text
  pub amount_inr : Provenanced ℕ
  pub currency : Provenanced Text
  pub rating : Provenanced ℕ
  pub in_stock : Provenanced Bool
  pub valid : Bool
  pub rejection_reasons : List ReasonCode
  pub rank : Option ℕ

abbrev pub identity_mismatch : ProvenancedOffer → Bool
identity_mismatch o = not (o.claimed_merchant_id.value == o.merchant_id.value)

abbrev ingested : (Text → Text) → Text → RawMerchantOffer → MerchantContext → ProvenancedOffer
ingested upper id raw context = record {
  offer_id = id;
  merchant_id = trusted_value context.merchant_id (merchant_identity context.merchant_id);
  merchant_trust = system_value context.trust_score (merchant_registry context.merchant_id);
  claimed_merchant_id = untrusted_value raw.merchant_id (merchant context.merchant_id);
  product_id = untrusted_value raw.product_id (merchant context.merchant_id);
  amount_inr = map_value rounded (untrusted_value raw.price (merchant context.merchant_id));
  currency = untrusted_value (upper raw.currency) (merchant context.merchant_id);
  rating = untrusted_value raw.rating (merchant context.merchant_id);
  in_stock = untrusted_value raw.in_stock (merchant context.merchant_id);
  valid = true;
  rejection_reasons = [];
  rank = none;
}

-- None when the identity is not the record's (InvariantViolation). `id` is the new offer's uuid.
unfoldable pub ingest_merchant_offer :
    (Text → Text) → Text → RawMerchantOffer → MerchantContext → Option ProvenancedOffer
ingest_merchant_offer upper id raw context =
    if context.merchant_id == context.record_id then some (ingested upper id raw context) else none
