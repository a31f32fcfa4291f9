-- ===== src/Payment/Intents/Reuse.antt =====
-- A payment request whose idempotency key is taken (services/payment_executor/intents.py).
use mathlib.Core.Path.{subst}
use pactra.Base.{
  Text, Moment, ◌≡◌, refl, ◌∙◌, sym, ap, inl, inr, false, Option, none, some, ◌==◌, find,
  Bool-cases, arith, if◌then◌else◌,
}
use pactra.Action.{Result, ok, raised, ◌>>=◌, >>=-ok}
use pactra.Domain.{Failure}
use pactra.Kernel.Capability.{CapabilitySet}
use pactra.Kernel.Transaction.{Crypto, BoundTransaction}
use pactra.Kernel.Authorization.Rows.{AuthorizationRow}
use pactra.Payment.Rows.{PaymentIntentRow}
use pactra.Payment.Tables.{MissionRow, Tables, Untouched}
use pactra.Payment.Intents.Create.{
  append_event, has_key, resolve_existing, request_fingerprint, PaymentIntentResult,
  resolve_or_place, create_payment_intent,
}
use pactra.Payment.Intents.Examined.{examine-Found, examine-Reads}

-- What a request is answered whose key is held by `existing`.
abbrev pub held_answer : PaymentIntentRow → Text → Result PaymentIntentResult
held_answer existing fingerprint =
    if existing.request_fingerprint == fingerprint
    then ok (record { intent = existing; created = false })
    else raised Failure.idempotency_conflict

pub resolve_existing-answer :
    (c : Crypto) (e : PaymentIntentRow) (fingerprint key : Text) (t : Tables)
    → ((resolve_existing c e fingerprint key t).0 ≡ held_answer e fingerprint)
      × Untouched t (resolve_existing c e fingerprint key t).1
unfolding resolve_existing append_event ◌>>=◌
resolve_existing-answer c e fingerprint key t =
    elim (Bool-cases (e.request_fingerprint == fingerprint)) [
      | inl same ↦ rw same (
        refl,
        record {
          intents = refl;
          missions = refl;
          outbox = refl;
          webhook_events = refl;
          authorizations = refl;
        },
      )
      | inr other ↦ rw other (
        refl,
        record {
          intents = refl;
          missions = refl;
          outbox = refl;
          webhook_events = refl;
          authorizations = refl;
        },
      )
    ]

pub resolve_or_place-held :
    (c : Crypto) (others : Tables → Tables) (au : AuthorizationRow) (key provider : Text)
    (tx : BoundTransaction) (m : MissionRow) (now : Moment) (o : Option PaymentIntentRow)
    (e : PaymentIntentRow) (t : Tables)
    → o ≡ some e
    → ((resolve_or_place c others au key provider tx m now o t).0
        ≡ held_answer e (
            request_fingerprint c au.mission_id au.authorization_id au.transaction_digest tx
              provider))
      × Untouched t (resolve_or_place c others au key provider tx m now o t).1
unfolding resolve_or_place
resolve_or_place-held c others au key provider tx m now none e t h = cc
resolve_or_place-held c others au key provider tx m now (some e') e t h =
    let same : e' ≡ e = ground arith in rw same (resolve_existing-answer c e _ key t)

-- An answer that a request with a held key gets.
pub held_answer-ok :
    (e : PaymentIntentRow) (fingerprint : Text) (r : PaymentIntentResult)
    → held_answer e fingerprint ≡ ok r
    → (r.intent ≡ e) × (r.created ≡ false) × (e.request_fingerprint ≡ fingerprint)
held_answer-ok e fingerprint r h = elim (Bool-cases (e.request_fingerprint == fingerprint)) [
  | inl same ↦
      let answered : ok (record { intent = e; created = false }) ≡ ok r = rw same at h in
      (ground arith, ground arith, ground arith)
  | inr other ↦ absurd (ground arith)
]

module _ (c : Crypto) (caps : CapabilitySet) (others : Tables → Tables) (m a key provider : Text)
    (now : Moment) where
  -- If the idempotency key of a payment request is held by an intent and the request returns, then
  -- it returns that very intent, as not created; and
  -- no intent, mission, outbox event, webhook event or authorization has changed, so nothing was
  -- consumed.
  pub create_payment_intent-reuses :
      (t : Tables) (e : PaymentIntentRow) {r : PaymentIntentResult}
      → find (has_key key) t.intents ≡ some e
      → (create_payment_intent c caps others m a key provider now t).0 ≡ ok r
      → (r.intent ≡ e)
        × (r.created ≡ false)
        × Untouched t (create_payment_intent c caps others m a key provider now t).1
  unfolding create_payment_intent
  create_payment_intent-reuses t e {r} held h =
      let (x, examined, step) = >>=-ok _ _ t h in
      let facts = examine-Found c caps m a key now t examined in
      let same = (examine-Reads c caps m a key now).at t x examined in
      let existing : x.existing ≡ some e = sym facts.looked_up ∙ held in
      let (answered, untouched) =
        resolve_or_place-held c others x.authorization key provider x.transaction x.mission now
          x.existing e t existing in
      let step' =
        step
        ∙ ap
            (λ u.
              resolve_or_place c others x.authorization key provider x.transaction x.mission now
                x.existing u)
            same in
      let (intent, old, _) = held_answer-ok e _ r (sym answered ∙ ap (λ q. q.0) (sym step') ∙ h) in
      (intent, old, subst (λ q. Untouched t q.1) (sym step') untouched)
