-- ===== src/Policy/Ranking.antt =====
-- The ranking of offers (services/policy_engine/ranking.py). `sorted` is stable: an insertion sort
-- from the right. The numbers of the identifiers are taken to be in the order of their texts.
use pactra.Base.{
  ℕ, suc, Bool, true, false, ◌||◌, ◌&&◌, Option, none, some, List, [], ◌∷◌, ◌==◌, ltb,
  if◌then◌else◌,
}
use pactra.Policy.Offers.{ProvenancedOffer}

-- A component of a sort key; the second is the one that the source negates.
pub data Component : Type 0 where
  up down : ℕ → Component

abbrev pub less : Component → Component → Bool
less (up a) (up b) = ltb a b
less (up a) (down b) = true
less (down a) (up b) = false
less (down a) (down b) = ltb b a

abbrev pub same : Component → Component → Bool
same (up a) (up b) = a == b
same (up a) (down b) = false
same (down a) (up b) = false
same (down a) (down b) = a == b

-- The order of tuples.
abbrev pub at_most : List Component → List Component → Bool
at_most [] ys = true
at_most (x ∷ xs) [] = false
at_most (x ∷ xs) (y ∷ ys) = less x y || (same x y && at_most xs ys)

abbrev pub sort_key : ProvenancedOffer → List Component
sort_key o =
    down o.rating.value
    ∷ up o.amount_inr.value
    ∷ down o.merchant_trust.value
    ∷ up o.merchant_id.value
    ∷ up o.product_id.value
    ∷ []

abbrev pub precedes : ProvenancedOffer → ProvenancedOffer → Bool
precedes o p = at_most (sort_key o) (sort_key p)

abbrev pub valid_offers : List ProvenancedOffer → List ProvenancedOffer
valid_offers [] = []
valid_offers (o ∷ os) = if o.valid then o ∷ valid_offers os else valid_offers os

abbrev pub insert : ProvenancedOffer → List ProvenancedOffer → List ProvenancedOffer
insert o [] = o ∷ []
insert o (p ∷ ps) = let rest = insert o ps in if precedes o p then o ∷ p ∷ ps else p ∷ rest

abbrev pub sort : List ProvenancedOffer → List ProvenancedOffer
sort [] = []
sort (o ∷ os) = insert o (sort os)

abbrev pub number_from : ℕ → List ProvenancedOffer → List ProvenancedOffer
number_from i [] = []
number_from i (o ∷ os) = record o { rank = some i } ∷ number_from (suc i) os

unfoldable pub rank_offers : List ProvenancedOffer → List ProvenancedOffer
rank_offers offers = number_from 1 (sort (valid_offers offers))

abbrev pub first : List ProvenancedOffer → Option ProvenancedOffer
first [] = none
first (o ∷ _) = some o

unfoldable pub best_offer : List ProvenancedOffer → Option ProvenancedOffer
unfolding rank_offers
best_offer offers = first (rank_offers offers)
