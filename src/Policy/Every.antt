-- ===== src/Policy/Every.antt =====
-- What every offer of a list satisfies, through the steps of the ranking
-- (services/policy_engine/ranking.py).
use mathlib.Core.List.{Memᴰ}
use pactra.Base.{◌≡◌, refl, inl, inr, Bool, true, false, List, [], ◌∷◌, Bool-cases, if◌then◌else◌}
use pactra.Policy.Offers.{ProvenancedOffer}
use pactra.Policy.Ranking.{precedes, valid_offers, insert, sort}

module _ (P : ProvenancedOffer → Type 0) where
  abbrev pub Every : List ProvenancedOffer → Type 0
  Every [] = Unit
  Every (o ∷ os) = P o × Every os

  pub insert-Every :
      (o : ProvenancedOffer) (os : List ProvenancedOffer) → P o → Every os → Every (insert o os)
  insert-Every o [] h hs = (h, hs)
  insert-Every o (p ∷ ps) h (k, ks) = elim (Bool-cases (precedes o p)) [
    | inl before ↦ rw before (h, (k, ks))
    | inr after ↦ rw after (k, insert-Every o ps h ks)
  ]

  pub sort-Every : (os : List ProvenancedOffer) → Every os → Every (sort os)
  sort-Every [] hs = hs
  sort-Every (o ∷ os) (h, hs) = insert-Every o (sort os) h (sort-Every os hs)

  pub Every-insert :
      (o : ProvenancedOffer) (os : List ProvenancedOffer) → Every (insert o os) → P o × Every os
  Every-insert o [] hs = hs
  Every-insert o (p ∷ ps) hs = elim (Bool-cases (precedes o p)) [
    | inl before ↦ rw before at hs
    | inr after ↦
        let (k, rest) : P p × Every (insert o ps) = rw after at hs in
        let (h, ks) = Every-insert o ps rest in (h, (k, ks))
  ]

  pub Every-sort : (os : List ProvenancedOffer) → Every (sort os) → Every os
  Every-sort [] hs = hs
  Every-sort (o ∷ os) hs = let (h, ks) = Every-insert o (sort os) hs in (h, Every-sort os ks)

pub map-Every :
    {P Q : ProvenancedOffer → Type 0}
    → ((o : ProvenancedOffer) → P o → Q o)
    → (os : List ProvenancedOffer) → Every P os
    → Every Q os
map-Every f [] hs = hs
map-Every f (o ∷ os) (h, hs) = (f o h, map-Every f os hs)

module _ (P : ProvenancedOffer → Type 0) where
  if-Every :
      (b : Bool) (o : ProvenancedOffer) (os : List ProvenancedOffer)
      → (b ≡ true → P o)
      → Every P os
      → Every P (if b then o ∷ os else os)
  if-Every true o os h hs = (h refl, hs)
  if-Every false o os h hs = hs

  Every-if :
      (b : Bool) (o : ProvenancedOffer) (os : List ProvenancedOffer)
      → Every P (if b then o ∷ os else os)
      → (b ≡ true → P o) × Every P os
  Every-if true o os (h, hs) = (λ _. h, hs)
  Every-if false o os hs = (λ v. absurd (cc), hs)

  pub valid_offers-Every :
      (os : List ProvenancedOffer)
      → Every (λ o. o.valid ≡ true → P o) os
      → Every P (valid_offers os)
  valid_offers-Every [] hs = hs
  valid_offers-Every (o ∷ os) (h, hs) =
      if-Every o.valid o (valid_offers os) h (valid_offers-Every os hs)

  pub Every-valid_offers :
      (os : List ProvenancedOffer)
      → Every P (valid_offers os)
      → Every (λ o. o.valid ≡ true → P o) os
  Every-valid_offers [] hs = hs
  Every-valid_offers (o ∷ os) hs =
      let (h, ks) = Every-if o.valid o (valid_offers os) hs in (h, Every-valid_offers os ks)

-- Every offer of a list stands in it.
pub Every-listed :
    (all os : List ProvenancedOffer)
    → ((o : ProvenancedOffer) → Memᴰ o os → Memᴰ o all)
    → Every (λ o. o.valid ≡ true → Memᴰ o all) os
Every-listed all [] f = tt
Every-listed all (o ∷ os) f =
    (λ v. f o (Memᴰ.head refl), Every-listed all os (λ p m. f p (Memᴰ.tail m)))

pub Every-valid : (os : List ProvenancedOffer) → Every (λ o. o.valid ≡ true → o.valid ≡ true) os
Every-valid [] = tt
Every-valid (o ∷ os) = (λ v. v, Every-valid os)
