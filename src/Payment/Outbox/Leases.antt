-- ===== src/Payment/Outbox/Leases.antt =====
-- A lease keeps its event (services/payment_executor/outbox.py).
use pactra.Base.{
  ℕ, Text, Moment, ⊤, ◌+◌, ◌<◌, ◌≡◌, ◌≢◌, inl, inr, Bool, true, false, some, List, [], ◌∷◌, ◌++◌,
  arith, ◌==◌, update_where, Bool-cases, Option-cases,
}
use pactra.Payment.Rows.{OutboxEventRow}
use pactra.Payment.Outbox.{
  is_due, first_due, claimed, is_unmoved, claim_observed, claim_postgres, unlocked,
}

-- What other transactions do to the outbox: a claim on PostgreSQL, the second statement of a
-- portable claim that has observed a row, a write to one event (its completion or its
-- rescheduling, say), and the insertion of an event.
pub data Change : Type 0 where
  claims : (Text → Bool) → Text → Moment → ℕ → Change
  takes : Text → Moment → ℕ → OutboxEventRow → Change
  writes : Text → (OutboxEventRow → OutboxEventRow) → Change
  adds : OutboxEventRow → Change

unfoldable pub change : Change → List OutboxEventRow → List OutboxEventRow
unfolding claim_postgres claim_observed
change (claims locked worker now lease) events = (claim_postgres locked worker now lease events).1
change (takes worker now lease seen) events = (claim_observed worker now lease seen events).1
change (writes id f) events = update_where (λ e. e.id == id) f events
change (adds event) events = events ++ event ∷ []

unfoldable pub changes : List Change → List OutboxEventRow → List OutboxEventRow
unfolding change
changes [] events = events
changes (c ∷ cs) events = changes cs (change c events)

module _ (k : Text) (until : Moment) where
  -- Claims before the end of the lease, of rows that were due when they were observed; writes to
  -- other events only; and new events with identifiers of their own.
  abbrev pub Foreign : Change → Type 0
  Foreign (claims locked worker now lease) = now < until
  Foreign (takes worker now lease seen) = (now < until) × (is_due now seen ≡ true)
  Foreign (writes id f) =
      (id == k ≡ false) × ((e : OutboxEventRow) → e.id == id ≡ true → (f e).id == k ≡ false)
  Foreign (adds event) = event.id == k ≡ false

  abbrev pub AllForeign : List Change → Type 0
  AllForeign [] = ⊤
  AllForeign (c ∷ cs) = Foreign c × AllForeign cs

  -- The event is not due before the end of the lease.
  abbrev Kept : OutboxEventRow → Type 0
  Kept e = e.id == k ≡ true → (t : Moment) → t < until → is_due t e ≡ false

  abbrev Held : List OutboxEventRow → Type 0
  Held [] = ⊤
  Held (e ∷ es) = Kept e × Held es

  update_where-Held :
      (q : OutboxEventRow → Bool) (f : OutboxEventRow → OutboxEventRow)
      → ((e : OutboxEventRow) → Kept e → q e ≡ true → Kept (f e))
      → (es : List OutboxEventRow) → Held es
      → Held (update_where q f es)
  update_where-Held q f keeps [] h = tt
  update_where-Held q f keeps (e ∷ es) (here, rest) = elim (Bool-cases (q e)) [
    | inl hit ↦ rw hit (keeps e here hit, update_where-Held q f keeps es rest)
    | inr miss ↦ rw miss (here, update_where-Held q f keeps es rest)
  ]

  append-Held :
      (es : List OutboxEventRow) (e : OutboxEventRow) → Held es → Kept e → Held (es ++ e ∷ [])
  append-Held [] e h here = (here, tt)
  append-Held (x ∷ es) e (first, h) here = (first, append-Held es e h here)

  unlocked-Held :
      (locked : Text → Bool) (es : List OutboxEventRow) → Held es → Held (unlocked locked es)
  unlocked-Held locked [] h = tt
  unlocked-Held locked (e ∷ es) (here, rest) = elim (Bool-cases (locked e.id)) [
    | inl shut ↦ rw shut (unlocked-Held locked es rest)
    | inr seen ↦ rw seen (here, unlocked-Held locked es rest)
  ]

  -- What is due before the end of the lease is another event.
  first_due-other :
      (t : Moment) (es : List OutboxEventRow) {b : OutboxEventRow}
      → Held es
      → t < until
      → first_due t es ≡ some b
      → b.id == k ≡ false
  unfolding first_due
  first_due-other t [] h l e = absurd (cc)
  first_due-other t (x ∷ xs) (here, rest) l e = elim (Bool-cases (x.id == k)) [
    | inr other ↦ elim (Option-cases (first_due t xs)) [
      | inl empty ↦ ground (arith, other, empty)
      | inr (b', there) ↦
          let apart = first_due-other t xs rest l there in ground (arith, other, there, apart)
    ]
    | inl own ↦ let idle = here own t l in first_due-other t xs rest l (rw idle at e)
  ]

  claim-Held :
      (locked : Text → Bool) (worker : Text) (now : Moment) (lease : ℕ) (es : List OutboxEventRow)
      → Held es
      → now < until
      → Held (claim_postgres locked worker now lease es).1
  unfolding claim_postgres
  claim-Held locked worker now lease es h l =
      elim (Option-cases (first_due now (unlocked locked es))) [
        | inl empty ↦ rw (claim_postgres, empty) h
        | inr (seen, there) ↦
            let other =
              first_due-other now (unlocked locked es) (unlocked-Held locked es h) l there in
            rw (claim_postgres, there)
              (update_where-Held (λ e. e.id == seen.id) (claimed worker (now + lease))
                (λ e kept hit own. absurd (ground (arith, hit, own, other))) es h)
      ]

  change-Held : (c : Change) (es : List OutboxEventRow) → Held es → Foreign c → Held (change c es)
  unfolding change claim_observed
  change-Held (claims locked worker now lease) es h l = claim-Held locked worker now lease es h l
  change-Held (takes worker now lease seen) es h (l, due) =
      update_where-Held (is_unmoved seen) (claimed worker (now + lease))
        (λ e kept hit own. absurd (takes_nothing e own kept hit)) es h
    where
      takes_nothing :
          (e : OutboxEventRow) → e.id == k ≡ true → Kept e → is_unmoved seen e ≡ true → ⊥
      takes_nothing e own kept hit = let idle = kept own now l in ground (arith, hit, due, idle)
  change-Held (writes id f) es h (apart, keeps) =
      update_where-Held (λ e. e.id == id) f (λ e kept hit own. absurd (cc (own, keeps e hit))) es h
  change-Held (adds event) es h apart = append-Held es event h (λ own. absurd (cc))

  changes-Held :
      (cs : List Change) (es : List OutboxEventRow) → Held es → AllForeign cs → Held (changes cs es)
  unfolding changes
  changes-Held [] es h a = h
  changes-Held (c ∷ cs) es h (own, a) = changes-Held cs (change c es) (change-Held c es h own) a

  claimed-Held :
      (worker : Text) (es : List OutboxEventRow)
      → Held (update_where (λ e. e.id == k) (claimed worker until) es)
  unfolding is_due
  claimed-Held worker [] = tt
  claimed-Held worker (e ∷ es) = elim (Bool-cases (e.id == k)) [
    | inl hit ↦ rw hit ((λ own t l. ground (arith, l)), claimed-Held worker es)
    | inr miss ↦ rw miss ((λ own. absurd (cc)), claimed-Held worker es)
  ]

  unclaimed :
      (locked : Text → Bool) (worker : Text) (now : Moment) (lease : ℕ) (es : List OutboxEventRow)
      → Held es
      → now < until
      → (claim_postgres locked worker now lease es).0 ≢ some k
  unfolding claim_postgres
  unclaimed locked worker now lease es h l again =
      elim (Option-cases (first_due now (unlocked locked es))) [
        | inl empty ↦ cc (rw (claim_postgres, empty) at again)
        | inr (seen, there) ↦
            let other =
              first_due-other now (unlocked locked es) (unlocked-Held locked es h) l there in
            ground (arith, other, there, again)
      ]

-- On PostgreSQL, an event that a worker has claimed is not claimed by another before the lease has
-- lapsed, whatever locks are held, and whatever other transactions do after the claim: claims of
-- either kind before the end of the lease, of rows that were due when observed, writes to other
-- events, and insertions of events with other identifiers.
pub claim_postgres-leased :
    (first second : Text) (now later lease lease' : ℕ) (k : Text) (locked locked' : Text → Bool)
    (events : List OutboxEventRow) (cs : List Change)
    → (claim_postgres locked first now lease events).0 ≡ some k
    → AllForeign k (now + lease) cs
    → later < now + lease
    → (claim_postgres locked' second later lease'
        (changes cs (claim_postgres locked first now lease events).1)).0
      ≢ some k
unfolding claim_postgres
claim_postgres-leased first second now later lease lease' k locked locked' events cs won foreign
      early =
    let until = now + lease in
    let held : Held k until (claim_postgres locked first now lease events).1 =
      elim (Option-cases (first_due now (unlocked locked events))) [
        | inl empty ↦ absurd (cc (rw (claim_postgres, empty) at won))
        | inr (seen, there) ↦
            let same : seen.id ≡ k = cc (rw (claim_postgres, there) at won) in
            rw (claim_postgres, there, same) (claimed-Held k until first events)
      ] in
    unclaimed k until locked' second later lease'
      (changes cs (claim_postgres locked first now lease events).1)
      (changes-Held k until cs (claim_postgres locked first now lease events).1 held foreign) early
