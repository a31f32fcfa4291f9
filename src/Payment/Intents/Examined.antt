-- ===== src/Payment/Intents/Examined.antt =====
-- What a payment request has found when it begins to write (services/payment_executor/intents.py).
use mathlib.Core.Path.{subst}
use pactra.Base.{
  Text, Moment, ℕ, ◌≡◌, refl, ◌∙◌, false, not, ◌&&◌, Option, none, some, ◌==◌, find, arith, is_none,
}
use pactra.Action.{Action, ok, gets-ok, raise_if-ok, raise_if_ne-ok, or_raise-ok, pure-ok}
use pactra.Action.Reads.{Reads, reads_rules, Reads-gets, Reads-or_raise, Reads-raise_if, >>=-read}
use pactra.Kernel.Authorization.Proof.{
  verify_authorization_for_payment, rebuild_bound_transaction, require_policy_scheme,
}
use pactra.Domain.{MissionState}
use pactra.Mission
use pactra.Kernel.Capability.{CapabilitySet, Capability, enforce_registered}
use pactra.Kernel.Transaction.{Crypto}
use pactra.Kernel.Authorization.Rows.{AuthorizationRow, has_id, AuthorizationStatus, Store}
use pactra.Kernel.Authorization.Binding.{Verified, verify_authorization_for_payment-Verified}
use pactra.Payment.Rows.{PaymentIntentRow}
use pactra.Payment.Tables.{Tables, is_mission}
use pactra.Payment.Intents.Create.{
  in_kernel, has_key, find_by_idempotency_key, expected_status, examine, Examined,
}

pub record Found (c : Crypto) (m a key : Text) (now : Moment) (t : Tables) (x : Examined)
    : Type 0 where
  pub held : find (has_id a) t.store.authorizations ≡ some x.authorization
  pub belongs : x.authorization.mission_id ≡ m
  pub looked_up : find (has_key key) t.intents ≡ x.existing
  pub mission : find (is_mission m) t.missions ≡ some x.mission
  pub ready :
      x.existing ≡ none → Mission.index x.mission.state ≡ Mission.index MissionState.authorized
  pub verified :
      Verified c x.authorization (expected_status x.existing a) now t.store.decisions x.transaction

-- A verification that returns has only read.
verify-Reads :
    (c : Crypto) (row : AuthorizationRow) (expected : AuthorizationStatus) (now : Moment)
    → Reads (verify_authorization_for_payment c row expected now)
unfolding verify_authorization_for_payment rebuild_bound_transaction require_policy_scheme
verify-Reads c row expected now = search reads_rules depth 14

in_kernel-Reads : {A : Type 0} (m : Action Store A) → Reads m → Reads (in_kernel m)
unfolding in_kernel
in_kernel-Reads m k = record { at = λ t a h. rw (k.at t.store a h) refl }

enforce-Reads :
    (caps : CapabilitySet) (k : Capability) → Reads {S = Tables} (enforce_registered caps k)
unfolding enforce_registered
enforce-Reads caps k = search reads_rules

find-Reads : (key : Text) → Reads (find_by_idempotency_key key)
unfolding find_by_idempotency_key
find-Reads key = search reads_rules

pub examine-Reads :
    (c : Crypto) (caps : CapabilitySet) (m a key : Text) (now : Moment)
    → Reads (examine c caps m a key now)
unfolding examine
examine-Reads c caps m a key now =
    search (reads_rules, enforce-Reads, find-Reads, in_kernel-Reads, verify-Reads) depth 16

ready :
    (o : Option PaymentIntentRow) (i j : ℕ) → is_none o && not (i == j) ≡ false → o ≡ none → i ≡ j
ready o i j h n = ground arith

in_kernel-ok :
    {A : Type 0} (m : Action Store A) (t : Tables) {a : A}
    → (in_kernel m t).0 ≡ ok a
    → (m t.store).0 ≡ ok a
unfolding in_kernel
in_kernel-ok m t h = h

find-ok :
    (key : Text) (t : Tables) {o : Option PaymentIntentRow}
    → (find_by_idempotency_key key t).0 ≡ ok o
    → find (has_key key) t.intents ≡ o
unfolding find_by_idempotency_key
find-ok key t h = gets-ok (λ u. find (has_key key) u.intents) t h

pub examine-Found :
    (c : Crypto) (caps : CapabilitySet) (m a key : Text) (now : Moment) (t : Tables) {x : Examined}
    → (examine c caps m a key now t).0 ≡ ok x
    → Found c m a key now t x
unfolding examine
examine-Found c caps m a key now t {x} h =
    let (_, r1, h1) = >>=-read _ _ t (enforce-Reads caps _) h in
    let (_, r2, h2) = >>=-read _ _ t (Reads-gets _) h1 in
    let (_, r3, h3) = >>=-read _ _ t (Reads-or_raise _ _) h2 in
    let (_, r4, h4) = >>=-read _ _ t (Reads-raise_if _ _) h3 in
    let (_, r5, h5) = >>=-read _ _ t (find-Reads key) h4 in
    let (_, r6, h6) = >>=-read _ _ t (Reads-gets _) h5 in
    let (_, r7, h7) = >>=-read _ _ t (Reads-or_raise _ _) h6 in
    let (_, r8, h8) = >>=-read _ _ t (Reads-raise_if _ _) h7 in
    let (_, r9, h9) = >>=-read _ _ t (in_kernel-Reads _ (verify-Reads c _ _ now)) h8 in
    subst (Found c m a key now t) (pure-ok _ t h9) (record {
      held = gets-ok (λ u. find (has_id a) u.store.authorizations) t r2 ∙ or_raise-ok _ _ t r3;
      belongs = raise_if_ne-ok _ _ _ t r4;
      looked_up = find-ok key t r5;
      mission = gets-ok (λ u. find (is_mission m) u.missions) t r6 ∙ or_raise-ok _ _ t r7;
      ready = ready _ _ _ (raise_if-ok _ _ t r8);
      verified = verify_authorization_for_payment-Verified c _ _ now t.store (in_kernel-ok _ t r9);
    })
