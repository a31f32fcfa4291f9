-- ===== src/Payment/Intents/Paying.antt =====
-- The whole of a payment request that creates an intent (services/payment_executor/intents.py).
use mathlib.Core.Path.{subst}
use pactra.Base.{
  ⊤, Text, Moment, ◌≡◌, refl, ◌∙◌, sym, ap, inl, inr, true, Option, none, some, find, arith,
  Option-cases,
}
use pactra.Action.{Result, ok, raised, continue, ◌>>=◌, >>=-ok}
use pactra.Domain.{Failure, MissionState}
use pactra.Mission
use pactra.Kernel.Capability.{CapabilitySet}
use pactra.Kernel.Transaction.{Crypto, BoundTransaction}
use pactra.Kernel.Authorization.Rows.{AuthorizationRow, active, has_id, bound_of}
use pactra.Kernel.Authorization.Binding.{Verified}
use pactra.Payment.State.{queued}
use pactra.Payment.Rows.{PaymentIntentRow}
use pactra.Payment.Tables.{MissionRow, Tables, is_mission}
use pactra.Payment.Intents.Create.{
  find_by_idempotency_key, has_key, expected_status, PaymentIntentResult, request_fingerprint,
  new_intent, end_savepoint, savepoint, fresh, conclude, place_or_resolve, resolve_or_place,
  create_payment_intent,
}
use pactra.Payment.Intents.Examined.{examine-Found, examine-Reads}
use pactra.Payment.Intents.Reuse.{resolve_existing-answer, held_answer-ok, resolve_or_place-held}
use pactra.Payment.Intents.Atomic.{drawn}
use pactra.Payment.Intents.Spending.{Placed, place_intent-Placed}

module _ (c : Crypto) (i : PaymentIntentRow) (before : Tables) (r : PaymentIntentResult) where
  -- A request that lost its key is not answered with a new intent.
  conclude-old : (t : Tables) → (conclude c i none t).0 ≡ ok r → r.created ≡ true → ⊥
  unfolding conclude find_by_idempotency_key ◌>>=◌
  conclude-old t h made = elim (Option-cases (find (has_key i.idempotency_key) t.intents)) [
    | inl gone ↦ absurd (cc (rw gone at h))
    | inr (winner, won) ↦
        let answered =
          (resolve_existing-answer c winner i.request_fingerprint i.idempotency_key t).0 in
        let (_, old, _) =
          held_answer-ok winner i.request_fingerprint r (sym answered ∙ rw won at h) in
        absurd (cc (made, old))
  ]

  released :
      (q : Result ⊤) (after : Tables)
      → ((u : ⊤) → q ≡ ok u → Placed i before after)
      → (continue
          (end_savepoint q before after).0
          (conclude c i)
          (end_savepoint q before after).1).0
        ≡ ok r
      → r.created ≡ true
      → (r.intent ≡ record i { state = queued })
        × Placed i before
            (continue
              (end_savepoint q before after).0
              (conclude c i)
              (end_savepoint q before after).1).1
  unfolding end_savepoint conclude ◌>>=◌
  released (ok u) after placed h made = (ground arith, placed u refl)
  released (raised Failure.integrity_error) after placed h made =
      absurd (conclude-old (record before { next_uuid = after.next_uuid }) h made)
  released (raised _) after placed h made = absurd (cc)

-- A new intent, and what it stands on: `t` are the tables before the request, `s` those that the
-- savepoint began with, and `u` those after it.
pub record Pays (c : Crypto) (m a key provider : Text) (now : Moment) (t s u : Tables)
    (i : PaymentIntentRow) : Type 0 where
  pub row : AuthorizationRow
  pub held : find (has_id a) t.store.authorizations ≡ some row
  pub belongs : row.mission_id ≡ m
  pub verified : Verified c row active now t.store.decisions (bound_of row)
  pub terms :
      (i.merchant_id ≡ row.bound_merchant_id)
      × (i.amount_inr ≡ row.bound_amount_inr)
      × (i.currency ≡ row.bound_currency)
      × (i.transaction_digest ≡ row.transaction_digest)
  pub names :
      (i.mission_id ≡ m)
      × (i.authorization_id ≡ row.authorization_id)
      × (i.idempotency_key ≡ key)
      × (i.provider ≡ provider)
      × (i.state ≡ queued)
  pub authorized :
      (mission : MissionRow) × (find (is_mission m) t.missions ≡ some mission)
      × (Mission.index mission.state ≡ Mission.index MissionState.authorized)
  pub placed : Placed i s u

module _ (c : Crypto) (caps : CapabilitySet) (others : Tables → Tables) (m a key provider : Text)
    (now : Moment) where
  place_or_resolve-Placed :
      (row : Text → PaymentIntentRow) (tx : BoundTransaction) (mission : MissionRow) (t : Tables)
      (r : PaymentIntentResult)
      → (place_or_resolve c others row tx mission now t).0 ≡ ok r
      → r.created ≡ true
      → (r.intent ≡ record (row t.next_uuid) { state = queued })
        × Placed
            (row t.next_uuid)
            (others (drawn t))
            (place_or_resolve c others row tx mission now t).1
  unfolding place_or_resolve fresh savepoint ◌>>=◌
  place_or_resolve-Placed row tx mission t r h made =
      released c (row t.next_uuid) (others (drawn t)) r _ _
        (λ u e. place_intent-Placed c (row t.next_uuid) tx mission now (others (drawn t)) e) h made

  new_row : AuthorizationRow → BoundTransaction → Text → PaymentIntentRow
  new_row au tx id =
      new_intent id au key
        (request_fingerprint c au.mission_id au.authorization_id au.transaction_digest tx provider)
        provider tx

  resolve_or_place-Placed :
      (au : AuthorizationRow) (tx : BoundTransaction) (mission : MissionRow)
      (o : Option PaymentIntentRow) (t : Tables) (r : PaymentIntentResult)
      → (resolve_or_place c others au key provider tx mission now o t).0 ≡ ok r
      → r.created ≡ true
      → (o ≡ none)
        × (r.intent ≡ record (new_row au tx t.next_uuid) { state = queued })
        × Placed
            (new_row au tx t.next_uuid)
            (others (drawn t))
            (resolve_or_place c others au key provider tx mission now o t).1
  unfolding resolve_or_place new_row
  resolve_or_place-Placed au tx mission none t r h made =
      let (same, placed) = place_or_resolve-Placed _ tx mission t r h made in (refl, same, placed)
  resolve_or_place-Placed au tx mission (some e) t r h made =
      let (_, old, _) = held_answer-ok e _ r (
        sym (resolve_or_place-held c others au key provider tx mission now (some e) e t refl).0
        ∙ h) in
      absurd (cc (made, old))

  -- A payment request that returns a new intent, with whatever other transactions commit before
  -- its savepoint: the authorization that it names was there, belongs to the mission, and passed
  -- every check of the verification before payment as an ACTIVE one; the mission was AUTHORIZED;
  -- merchant, amount, currency and digest of the intent are the authorization's, and mission, key
  -- and provider the request's; the intent is in the table under its key, in the state QUEUED;
  -- one outbox event that asks for its creation was added; and if the authorization's
  -- identifier stood at most once in the table when the savepoint began, the authorization is now
  -- CONSUMED.
  pub create_payment_intent-Pays :
      (t : Tables) {r : PaymentIntentResult}
      → (create_payment_intent c caps others m a key provider now t).0 ≡ ok r
      → r.created ≡ true
      → Pays c m a key provider now t
          (others (drawn t))
          (create_payment_intent c caps others m a key provider now t).1
          r.intent
  unfolding create_payment_intent new_row bound_of
  create_payment_intent-Pays t {r} h made =
      let (x, examined, step) = >>=-ok _ _ t h in
      let facts = examine-Found c caps m a key now t examined in
      let same = (examine-Reads c caps m a key now).at t x examined in
      let rest =
        resolve_or_place c others x.authorization key provider x.transaction x.mission now
          x.existing in
      let step' = step ∙ ap rest same in
      let (new, intent, placed) =
        resolve_or_place-Placed x.authorization x.transaction x.mission x.existing t r
          (sym (ap (λ q. q.0) step') ∙ h) made in
      let terms = facts.verified.terms in
      let verified : Verified c x.authorization active now t.store.decisions
          (bound_of x.authorization) =
        subst (Verified c x.authorization active now t.store.decisions) terms (
          subst
            (λ o.
              Verified c x.authorization (expected_status o a) now t.store.decisions x.transaction)
            new facts.verified) in
      subst
        (λ (q : Result PaymentIntentResult × Tables).
          Pays c m a key provider now t (others (drawn t)) q.1 r.intent)
        (sym step')
        (subst (Pays c m a key provider now t (others (drawn t)) (rest t).1) (sym intent) (record {
          row = x.authorization;
          held = facts.held;
          belongs = facts.belongs;
          verified = verified;
          terms = (
            ap (λ y. y.merchant_id) terms,
            ap (λ y. y.amount_inr) terms,
            ap (λ y. y.currency) terms,
            refl,
          );
          names = (facts.belongs, refl, refl, refl, refl);
          authorized = (x.mission, facts.mission, facts.ready new);
          placed = record {
            spent = placed.spent;
            recorded = placed.recorded;
            enqueued = placed.enqueued;
          };
        }))
