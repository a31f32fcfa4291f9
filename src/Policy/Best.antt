-- ===== src/Policy/Best.antt =====
-- The offer that is ranked first (services/policy_engine/ranking.py).
use pactra.Base.{◌≡◌, refl, sym, ap, inl, inr, true, false, some, List, [], ◌∷◌, arith, Bool-cases}
use pactra.Policy.Offers.{ProvenancedOffer}
use pactra.Policy.Ranking.{
  Component, up, down, less, same, at_most, sort_key, precedes, valid_offers, insert, sort,
  number_from, first, rank_offers, best_offer,
}
use pactra.Policy.Every.{
  Every, insert-Every, sort-Every, Every-sort, map-Every, valid_offers-Every, Every-valid_offers,
}

less_trans : (x y z : Component) → less x y ≡ true → less y z ≡ true → less x z ≡ true
less_trans (up a) (up b) (up c) h k = ground arith
less_trans (up a) (up b) (down c) h k = refl
less_trans (up a) (down b) (down c) h k = refl
less_trans (up a) (down b) (up c) h k = absurd (cc)
less_trans (down a) (up b) z h k = absurd (cc)
less_trans (down a) (down b) (up c) h k = absurd (cc)
less_trans (down a) (down b) (down c) h k = ground arith

same_eq : (x y : Component) → same x y ≡ true → x ≡ y
same_eq (up a) (up b) h = ap up (ground arith)
same_eq (up a) (down b) h = absurd (cc)
same_eq (down a) (up b) h = absurd (cc)
same_eq (down a) (down b) h = ap down (ground arith)

same_refl : (x : Component) → same x x ≡ true
same_refl (up a) = ground arith
same_refl (down a) = ground arith

less_total : (x y : Component) → less x y ≡ false → same x y ≡ false → less y x ≡ true
less_total (up a) (up b) h k = ground arith
less_total (up a) (down b) h k = absurd (cc)
less_total (down a) (up b) h k = refl
less_total (down a) (down b) h k = ground arith

at_most_trans :
    (xs ys zs : List Component) → at_most xs ys ≡ true → at_most ys zs ≡ true → at_most xs zs ≡ true
at_most_trans [] ys zs h k = refl
at_most_trans (x ∷ xs) [] zs h k = absurd (cc)
at_most_trans (x ∷ xs) (y ∷ ys) [] h k = absurd (cc)
at_most_trans (x ∷ xs) (y ∷ ys) (z ∷ zs) h k = elim (Bool-cases (less x y)) [
  | inl l ↦ elim (Bool-cases (less y z)) [
    | inl m ↦ rw (less_trans x y z l m) refl
    | inr n ↦ elim (Bool-cases (same y z)) [
      | inl e ↦ rw (← same_eq y z e, l) refl
      | inr f ↦ absurd (cc (rw (n, f) at k))
    ]
  ]
  | inr n ↦ elim (Bool-cases (same x y)) [
    | inl e ↦
        let tails : at_most xs ys ≡ true = rw (n, e) at h in
        let eq = same_eq x y e in
        elim (Bool-cases (less y z)) [
          | inl m ↦ rw (eq, m) refl
          | inr o ↦ elim (Bool-cases (same y z)) [
            | inl g ↦ rw (eq, o, g) (at_most_trans xs ys zs tails (rw (o, g) at k))
            | inr f ↦ absurd (cc (rw (o, f) at k))
          ]
        ]
    | inr f ↦ absurd (cc (rw (n, f) at h))
  ]
]

at_most_total : (xs ys : List Component) → at_most xs ys ≡ false → at_most ys xs ≡ true
at_most_total [] ys h = absurd (cc)
at_most_total (x ∷ xs) [] h = refl
at_most_total (x ∷ xs) (y ∷ ys) h = elim (Bool-cases (less x y)) [
  | inl l ↦ absurd (cc (rw l at h))
  | inr n ↦ elim (Bool-cases (same x y)) [
    | inl e ↦
        let tails : at_most xs ys ≡ false = rw (n, e) at h in
        let eq = same_eq x y e in
        elim (Bool-cases (less y x)) [
          | inl m ↦ rw m refl
          | inr o ↦ rw (o, eq, same_refl y, at_most_total xs ys tails) refl
        ]
    | inr f ↦ rw (less_total x y n f) refl
  ]
]

-- The first offer of a list precedes, or ties with, each.
abbrev Leads : List ProvenancedOffer → Type 0
Leads [] = Unit
Leads (o ∷ os) = Every (λ p. precedes o p ≡ true) os

precedes_trans :
    (o p q : ProvenancedOffer) → precedes o p ≡ true → precedes p q ≡ true → precedes o q ≡ true
precedes_trans o p q h k = at_most_trans (sort_key o) (sort_key p) (sort_key q) h k

precedes_total : (o p : ProvenancedOffer) → precedes o p ≡ false → precedes p o ≡ true
precedes_total o p h = at_most_total (sort_key o) (sort_key p) h

insert-Leads : (o : ProvenancedOffer) (os : List ProvenancedOffer) → Leads os → Leads (insert o os)
insert-Leads o [] h = h
insert-Leads o (p ∷ ps) h = elim (Bool-cases (precedes o p)) [
  | inl before ↦ rw before (before, map-Every (λ q k. precedes_trans o p q before k) ps h)
  | inr after ↦ rw after (insert-Every (λ q. precedes p q ≡ true) o ps (precedes_total o p after) h)
]

sort-Leads : (os : List ProvenancedOffer) → Leads (sort os)
sort-Leads [] = tt
sort-Leads (o ∷ os) = insert-Leads o (sort os) (sort-Leads os)

-- The offer that is found best, before it gets its rank.
pub record Best (offers : List ProvenancedOffer) (b : ProvenancedOffer) : Type 1 where
  pub top : ProvenancedOffer
  pub numbered : b ≡ record top { rank = some 1 }
  pub leads : Every (λ o. o.valid ≡ true → precedes top o ≡ true) offers
  pub among : (P : ProvenancedOffer → Type 0) → Every (λ o. o.valid ≡ true → P o) offers → P top

precedes_refl : (o : ProvenancedOffer) → precedes o o ≡ true
precedes_refl o = elim (Bool-cases (precedes o o)) [ inl h ↦ h | inr h ↦ precedes_total o o h ]

-- A list that is sorted to one with a head.
first-Best :
    (offers os : List ProvenancedOffer) {b : ProvenancedOffer}
    → sort (valid_offers offers) ≡ os
    → first (number_from 1 os) ≡ some b
    → Best offers b
first-Best offers [] e h = absurd (cc)
first-Best offers (o ∷ os) {b} e h =
    let valid = valid_offers offers in
    let leads = sort-Leads valid in
    record {
      top = o;
      numbered = sym (cc);
      leads =
          Every-valid_offers (λ p. precedes o p ≡ true) offers
            (Every-sort (λ p. precedes o p ≡ true) valid (rw e (precedes_refl o, rw e at leads)));
      among = λ P k.
          let sorted = sort-Every P valid (valid_offers-Every P offers k) in
          let all : Every P (o ∷ os) = rw e at sorted in all.0;
    }

pub best_offer-Best :
    (offers : List ProvenancedOffer) {b : ProvenancedOffer}
    → best_offer offers ≡ some b
    → Best offers b
unfolding best_offer rank_offers
best_offer-Best offers h = first-Best offers (sort (valid_offers offers)) refl h
