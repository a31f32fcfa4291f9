-- ===== src/Payment/Outbox/Claims.antt =====
-- Who gets an event of the outbox (services/payment_executor/outbox.py).
use pactra.Base.{
  ℕ, Text, Moment, ◌+◌, ◌≤◌, ◌<◌, ◌≡◌, refl, ap, ◌⊎◌, inl, inr, Bool, true, false, ◌&&◌, none, some,
  List, [], ◌∷◌, arith, ◌==◌, count, update_where, Bool-cases, Option-cases,
}
use mathlib.Core.List.{Memᴰ}
use pactra.Payment.Rows.{OutboxEventRow}
use pactra.Payment.Outbox.{
  is_due, first_due, earlier, claimed, is_unmoved, claim_observed, claim_conditional,
  claim_postgres, unlocked,
}

-- An update that falsifies its own condition leaves no row that satisfies it.
count-spent :
    (q : OutboxEventRow → Bool) (f : OutboxEventRow → OutboxEventRow)
    → ((x : OutboxEventRow) → q x ≡ true → q (f x) ≡ false)
    → (es : List OutboxEventRow) → count q (update_where q f es) ≡ 0
count-spent q f spent [] = refl
count-spent q f spent (e ∷ es) = elim (Bool-cases (q e)) [
  | inl hit ↦ rw (hit, spent e hit, count-spent q f spent es)
  | inr miss ↦ rw (miss, miss, count-spent q f spent es)
]

-- Two workers that have observed the same event, which was due: once one has tried to claim it
-- with a lease that is not empty, the other, at any instant and with any lease, claims nothing.
pub claim_observed-once :
    (first second : Text) (now later lease lease' : ℕ) (seen : OutboxEventRow)
    (events : List OutboxEventRow)
    → is_due now seen ≡ true
    → 0 < lease
    → (claim_observed second later lease' seen (claim_observed first now lease seen events).1).0
      ≡ none
unfolding claim_observed is_due
claim_observed-once first second now later lease lease' seen events due positive =
    rw (count-spent (is_unmoved seen) (claimed first (now + lease)) (λ x h. ground arith) events)

chosen :
    (t : Moment) (e : OutboxEventRow) (es : List OutboxEventRow) {b : OutboxEventRow}
    (b' : OutboxEventRow)
    → first_due t es ≡ some b'
    → first_due t (e ∷ es) ≡ some b
    → (b ≡ e) ⊎ (b ≡ b')
unfolding first_due
chosen t e es b' there h = elim (Bool-cases (is_due t e && earlier b' e)) [
  | inl before ↦ inr (ground arith)
  | inr after ↦ elim (Bool-cases (is_due t e)) [
    | inl due ↦ inl (ground arith)
    | inr idle ↦ inr (ground arith)
  ]
]

-- The event that is claimed stands in the table.
first_due-member :
    (t : Moment) (es : List OutboxEventRow) {b : OutboxEventRow}
    → first_due t es ≡ some b
    → Memᴰ b es
unfolding first_due
first_due-member t [] h = cc
first_due-member t (e ∷ es) {b} h = elim (Option-cases (first_due t es)) [
  | inl empty ↦ Memᴰ.head (ground arith)
  | inr (b', there) ↦ elim (chosen t e es b' there h) [
    | inl own ↦ Memᴰ.head own
    | inr other ↦ Memᴰ.tail (rw other (first_due-member t es there))
  ]
]

present :
    (p : OutboxEventRow → Bool) (x : OutboxEventRow)
    → p x ≡ true
    → (es : List OutboxEventRow) → Memᴰ x es
    → 1 ≤ count p es
present p x hit [] m = elim m [ ]
present p x hit (e ∷ es) (Memᴰ.head same) = rw (← same, hit) (omega arith)
present p x hit (e ∷ es) (Memᴰ.tail m) = omega (present p x hit es m, arith)

module _ (k : Text) (q : OutboxEventRow → Bool) (f : OutboxEventRow → OutboxEventRow)
    (narrow : (x : OutboxEventRow) → q x ≡ true → x.id == k ≡ true) where
  missed : (e : OutboxEventRow) → e.id == k ≡ false → q e ≡ false
  missed e h = elim (Bool-cases (q e)) [ inl hit ↦ cc (narrow e hit) | inr miss ↦ miss ]

  -- A table in which no row has the key.
  none_alike :
      (es : List OutboxEventRow)
      → count (λ x. x.id == k) es ≡ 0
      → (count q es ≡ 0) × (update_where q f es ≡ update_where (λ x. x.id == k) f es)
  none_alike [] h = (refl, refl)
  none_alike (e ∷ es) h = elim (Bool-cases (e.id == k)) [
    | inl hit ↦ absurd (ground arith)
    | inr other ↦
        let rest = none_alike es (ground arith) in
        rw (missed e other, other) (omega (arith, rest.0), ap (λ xs. e ∷ xs) rest.1)
  ]

  -- A table in which one row has the key, and satisfies the narrower condition.
  one_alike :
      (seen : OutboxEventRow)
      → seen.id == k ≡ true
      → q seen ≡ true
      → (es : List OutboxEventRow) → Memᴰ seen es
      → count (λ x. x.id == k) es ≤ 1
      → (count q es ≡ 1) × (update_where q f es ≡ update_where (λ x. x.id == k) f es)
  one_alike seen named wanted [] m once = elim m [ ]
  one_alike seen named wanted (e ∷ es) (Memᴰ.head same) once =
      let here : e.id == k ≡ true = rw (← same) named in
      let hit : q e ≡ true = rw (← same) wanted in
      let rest = none_alike es (ground arith) in
      rw (hit, here) (omega (arith, rest.0), ap (λ xs. f e ∷ xs) rest.1)
  one_alike seen named wanted (e ∷ es) (Memᴰ.tail m) once = elim (Bool-cases (e.id == k)) [
    | inl hit ↦ absurd (omega (present (λ x. x.id == k) seen named es m, rw hit at once, arith))
    | inr other ↦
        let rest = one_alike seen named wanted es m (ground arith) in
        rw (missed e other, other) (omega (arith, rest.0), ap (λ xs. e ∷ xs) rest.1)
  ]

is_unmoved-id : (seen x : OutboxEventRow) → is_unmoved seen x ≡ true → x.id == seen.id ≡ true
is_unmoved-id seen x h = ground arith

unlocked-all : (es : List OutboxEventRow) → unlocked (λ _. false) es ≡ es
unlocked-all [] = refl
unlocked-all (e ∷ es) = ap (λ xs. e ∷ xs) (unlocked-all es)

-- With identifiers that are unique, the two statements of the portable claim, when nothing comes
-- between them, do what the one statement on PostgreSQL does when no other transaction holds a
-- lock: the same answer and the same table.
pub claim_conditional-postgres :
    (worker : Text) (now : Moment) (lease : ℕ) (events : List OutboxEventRow)
    → ((k : Text) → count (λ x. x.id == k) events ≤ 1)
    → claim_conditional (λ es. es) worker now lease events
      ≡ claim_postgres (λ _. false) worker now lease events
unfolding claim_conditional claim_postgres claim_observed
claim_conditional-postgres worker now lease events unique =
    elim (Option-cases (first_due now events)) [
      | inl empty ↦ rw (claim_conditional, claim_postgres, unlocked-all events, empty)
      | inr (seen, there) ↦
          let (one, same) =
            one_alike seen.id (is_unmoved seen) (claimed worker (now + lease)) (is_unmoved-id seen)
              seen (ground arith) (ground arith) events (first_due-member now events there)
              (unique seen.id) in
          rw (
            claim_conditional,
            claim_postgres,
            claim_observed,
            unlocked-all events,
            there,
            one,
            same,
          )
    ]
