-- ===== src/Policy/Decided.antt =====
-- What a decision that is not a denial rests on (services/policy_engine).
use mathlib.Core.Path.{subst}
use mathlib.Core.List.{Memᴰ}
use pactra.Base.{
  ℕ, suc, Text, ◌≡◌, refl, sym, ◌*◌, ◌≤◌, inl, inr, Bool, true, false, Option, none, some, List, [],
  ◌∷◌, arith, leb, contains, Option-cases, if◌then◌else◌,
}
use pactra.Domain.{PolicyOutcome}
use pactra.Policy.Offers.{
  AuthenticatedQuote, MerchantContext, RawMerchantOffer, ProvenancedOffer, ingest_merchant_offer,
}
use pactra.Policy.Normalization.{
  MissionConstraints, is_allowed, checked, normalize_offer, normalize_from, normalize_offers,
  check_ingested, prepend, pairs,
}
use pactra.Policy.Ranking.{precedes, best_offer}
use pactra.Policy.Engine.{PolicyDecision, evaluate}
use pactra.Policy.Selection.{decide}
use pactra.Policy.Every.{Every, Every-listed, Every-valid}
use pactra.Policy.Best.{best_offer-Best}

abbrev pub is_deny : PolicyOutcome → Bool
is_deny PolicyOutcome.allow = false
is_deny PolicyOutcome.require_approval = false
is_deny PolicyOutcome.deny = true

-- An offer that a mission's constraints admit.
pub record Acceptable (c : MissionConstraints) (o : ProvenancedOffer) : Type 0 where
  honest : o.claimed_merchant_id.value ≡ o.merchant_id.value
  currency : o.currency.value ≡ c.currency
  in_stock : o.in_stock.value ≡ true
  rated : c.min_rating ≤ o.rating.value
  trusted : c.min_merchant_trust ≤ o.merchant_trust.value
  allowed : is_allowed c.allowed_merchants o.merchant_id.value ≡ true
  not_blocked : contains o.merchant_id.value c.blocked_merchants ≡ false

checked-Acceptable :
    (c : MissionConstraints) (o : ProvenancedOffer)
    → (checked c o).valid ≡ true
    → Acceptable c (checked c o)
checked-Acceptable c o h = record {
  honest = ground arith;
  currency = ground arith;
  in_stock = ground arith;
  rated = ground arith;
  trusted = ground arith;
  allowed = ground arith;
  not_blocked = ground arith;
}

module _ (upper : Text → Text) (c : MissionConstraints) where
  check_ingested-Acceptable :
      (q : Option ProvenancedOffer) {o : ProvenancedOffer}
      → check_ingested upper c q ≡ some o
      → o.valid ≡ true
      → Acceptable c o
  check_ingested-Acceptable none h v = absurd (cc)
  check_ingested-Acceptable (some x) {o} h v =
      let e : checked c x ≡ o = cc in
      subst (λ y. y.valid ≡ true → Acceptable c y) e (checked-Acceptable c x) v

  prepend-Every :
      (P : ProvenancedOffer → Type 0) (q : Option ProvenancedOffer)
      (r : Option (List ProvenancedOffer)) {os : List ProvenancedOffer}
      → prepend upper c q r ≡ some os
      → ((o : ProvenancedOffer) → q ≡ some o → P o)
      → ((rest : List ProvenancedOffer) → r ≡ some rest → Every P rest)
      → Every P os
  prepend-Every P none r h k l = absurd (cc)
  prepend-Every P (some o) none h k l = absurd (cc)
  prepend-Every P (some o) (some rest) {os} h k l =
      let e : o ∷ rest ≡ os = cc in subst (Every P) e (k o refl, l rest refl)

  normalize_from-Acceptable :
      (id : Text) (ps : List (MerchantContext × RawMerchantOffer)) {os : List ProvenancedOffer}
      → normalize_from upper c id ps ≡ some os
      → Every (λ o. o.valid ≡ true → Acceptable c o) os
  unfolding normalize_from normalize_offer
  normalize_from-Acceptable id [] {os} h =
      let e : [] ≡ os = cc in subst (Every (λ o. o.valid ≡ true → Acceptable c o)) e tt
  normalize_from-Acceptable id (p ∷ ps) {os} h =
      prepend-Every (λ o. o.valid ≡ true → Acceptable c o) (normalize_offer upper c id p.1 p.0)
        (normalize_from upper c (suc id) ps) h
        (λ o e. check_ingested-Acceptable (ingest_merchant_offer upper id p.1 p.0) e)
        (λ rest e. normalize_from-Acceptable (suc id) ps e)

  -- What a decision that is not a denial rests on.
  pub record Permits (id : Text) (quotes : List AuthenticatedQuote) (quantity : ℕ)
      (d : PolicyDecision) : Type 0 where
    offers : List ProvenancedOffer
    normalized : normalize_offers upper c id quotes ≡ some offers
    offer : ProvenancedOffer
    listed : Memᴰ offer offers
    valid : offer.valid ≡ true
    selected : d.selected_offer_id ≡ some offer.offer_id
    acceptable : Acceptable c offer
    leads : Every (λ o. o.valid ≡ true → precedes offer o ≡ true) offers
    requested : d.requested_amount ≡ some (offer.amount_inr.value * quantity)
    within : offer.amount_inr.value * quantity ≤ c.hard_limit_inr
    ruling : d.decision ≡ (
        if leb (offer.amount_inr.value * quantity) c.soft_budget_inr
        then PolicyOutcome.allow
        else PolicyOutcome.require_approval)

  ranked-Permits :
      (id : Text) (quotes : List AuthenticatedQuote) (quantity : ℕ) (offers : List ProvenancedOffer)
      (top : ProvenancedOffer)
      → normalize_offers upper c id quotes ≡ some offers
      → Memᴰ top offers
      → top.valid ≡ true
      → Acceptable c top
      → Every (λ o. o.valid ≡ true → precedes top o ≡ true) offers
      → is_deny (evaluate c (some (record top { rank = some 1 })) quantity).decision ≡ false
      → Permits id quotes quantity (evaluate c (some (record top { rank = some 1 })) quantity)
  unfolding evaluate
  ranked-Permits id quotes quantity offers top n listed valid ok leads a = record {
    offers = offers;
    normalized = n;
    offer = top;
    listed = listed;
    valid = valid;
    selected = ground arith;
    acceptable = ok;
    leads = leads;
    requested = ground arith;
    within = ground arith;
    ruling = ground arith;
  }

  best-Permits :
      (id : Text) (quotes : List AuthenticatedQuote) (quantity : ℕ) (offers : List ProvenancedOffer)
      (best : Option ProvenancedOffer)
      → normalize_offers upper c id quotes ≡ some offers
      → best_offer offers ≡ best
      → is_deny (evaluate c best quantity).decision ≡ false
      → Permits id quotes quantity (evaluate c best quantity)
  unfolding evaluate normalize_offers
  best-Permits id quotes quantity offers none n e a = absurd (cc)
  best-Permits id quotes quantity offers (some b) n e a =
      let best = best_offer-Best offers e in
      let ok = best.among (Acceptable c) (normalize_from-Acceptable id (pairs upper c quotes) n) in
      let listed = best.among (λ o. Memᴰ o offers) (Every-listed offers offers (λ o m. m)) in
      let valid = best.among (λ o. o.valid ≡ true) (Every-valid offers) in
      subst
        (λ b.
          is_deny (evaluate c (some b) quantity).decision ≡ false
          → Permits id quotes quantity (evaluate c (some b) quantity))
        (sym best.numbered)
        (ranked-Permits id quotes quantity offers best.top n listed valid ok best.leads) a

  -- A decision on a mission's quotes that is not a denial: it selects, by its identifier, a valid
  -- offer among those normalized from the quotes, one that meets every constraint of the mission,
  -- whose claimed identity is the authenticated one, and that no valid offer among them outranks;
  -- it requests the offer's amount times the quantity, which is within the hard limit; and it is
  -- ALLOW if that is within the soft budget, else REQUIRE_APPROVAL.
  pub decide-Permits :
      (id : Text) (quotes : List AuthenticatedQuote) (quantity : ℕ) {d : PolicyDecision}
      → decide upper c id quotes quantity ≡ some d
      → is_deny d.decision ≡ false
      → Permits id quotes quantity d
  unfolding decide
  decide-Permits id quotes quantity {d} h a =
      elim (Option-cases (normalize_offers upper c id quotes)) [
        | inl refused ↦ absurd (cc (rw (decide, refused) at h))
        | inr (offers, n) ↦
            let e : evaluate c (best_offer offers) quantity ≡ d = cc (rw (decide, n) at h) in
            subst (λ d. is_deny d.decision ≡ false → Permits id quotes quantity d) e
              (best-Permits id quotes quantity offers (best_offer offers) n refl) a
      ]
