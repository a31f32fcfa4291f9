-- ===== src/Payment/Reconciliation/Ambiguous.antt =====
-- Reconciliation of a payment for which several matching payments were seen at the provider.
use pactra.Base.{
  Moment, ◌≡◌, refl, ◌⊎◌, inl, inr, ◌∙◌, true, Option, is_some, Bool-cases, arith, is_none,
}
use pactra.Domain.{ReasonCode, EventType, Payload}
use pactra.Action.{Action, ◌>>=◌}
use pactra.Action.Follows.{IsPreorder, Follows, Follows-bind, follows_rules}
use pactra.Kernel.Capability.{CapabilitySet}
use pactra.Kernel.Transaction.{Crypto}
use pactra.Payment.State.{PaymentIntentState, provider_pending}
use pactra.Payment.Rows.{
  PaymentIntentRow, ProviderPayment, ProviderError, Answer, answer, fails, PaymentProvider,
}
use pactra.Payment.Executor.Session.{Session, update_intent, apply_payment_transition}
use pactra.Payment.Executor.Uncertain.{remember_provider_ambiguity}
use pactra.Payment.Executor.Dispatch.{relock}
use pactra.Payment.Executor.Same.{
  On, Same, On-IsPreorder, Same-On, update_intent-On, apply_payment_transition-On, same_rules,
  verify_intent_authorization-Same, validate_provider_route-Same, enforce_registered-Same,
  already_terminal-Same,
}
use pactra.Payment.Reconciliation.Branches.{observe_ambiguity, lookup_failed, known_ambiguity}
use pactra.Payment.Reconciliation.Reconcile.{
  answered, ask_provider, shut_fence, Pause, done, shut, look_or_shut, open_reconcile,
  behind_shut_fence, close_reconcile, reconcile_intent,
}
use pactra.Payment.Reconciliation.Fenced.{audit_round-Same}

-- The ambiguity is still there, nothing was linked, and the payment was not settled.
pub record Unsettled (i j : PaymentIntentRow) : Type 0 where
  pub seen : is_some j.provider_ambiguity_observed_at ≡ true
  pub state : (j.state ≡ i.state) ⊎ (j.state ≡ provider_pending)
  pub linked : j.provider_payment_id ≡ i.provider_payment_id

abbrev pub Suspended : PaymentIntentRow → PaymentIntentRow → Type 0
Suspended i j = is_some i.provider_ambiguity_observed_at ≡ true → Unsettled i j

either :
    {r s t : PaymentIntentState}
    → (s ≡ r) ⊎ (s ≡ provider_pending)
    → (t ≡ s) ⊎ (t ≡ provider_pending)
    → (t ≡ r) ⊎ (t ≡ provider_pending)
either (inl p) (inl q) = inl (q ∙ p)
either (inr p) (inl q) = inr (q ∙ p)
either _ (inr q) = inr q

pub Suspended-IsPreorder : IsPreorder Suspended
Suspended-IsPreorder = record {
  reflexive = λ i h. record { seen = h; state = inl refl; linked = refl };
  transitive = λ i j k p q h.
      let u = p h in
      let v = q u.seen in
      record { seen = v.seen; state = either u.state v.state; linked = v.linked ∙ u.linked };
}

OnSuspended : IsPreorder (On Suspended)
OnSuspended = On-IsPreorder Suspended-IsPreorder

Same-Suspended : {A : Type 0} (m : Action Session A) → Follows Same m → Follows (On Suspended) m
Same-Suspended = Same-On Suspended-IsPreorder

pending-Suspended :
    (e : EventType) (p : Payload) (r : Option ReasonCode)
    → Follows (On Suspended) (apply_payment_transition provider_pending e p r)
pending-Suspended e p r =
    apply_payment_transition-On Suspended-IsPreorder _ e p r
      λ i r h. record { seen = h; state = inr refl; linked = refl }

remember-Suspended :
    (now : Moment) (i : PaymentIntentRow) → Suspended i (remember_provider_ambiguity now i)
unfolding remember_provider_ambiguity
remember-Suspended now i h = elim (Bool-cases (is_some i.provider_ambiguity_observed_at)) [
  | inl e ↦ record { seen = ground arith; state = inl refl; linked = refl }
  | inr e ↦ record { seen = ground arith; state = inl refl; linked = refl }
]

change-Suspended :
    (f : PaymentIntentRow → PaymentIntentRow)
    → ((i : PaymentIntentRow) → Suspended i (f i))
    → Follows (On Suspended) (update_intent f)
change-Suspended = update_intent-On Suspended-IsPreorder

ruleset suspended_rules = (
  follows_rules, OnSuspended, Same-Suspended, same_rules, verify_intent_authorization-Same,
  validate_provider_route-Same, enforce_registered-Same, already_terminal-Same, audit_round-Same,
  pending-Suspended, change-Suspended, remember-Suspended,
)

observe_ambiguity-Suspended :
    (e : ProviderError) (now : Moment) → Follows (On Suspended) (observe_ambiguity e now)
unfolding observe_ambiguity
observe_ambiguity-Suspended e now = search suspended_rules depth 12

lookup_failed-Suspended :
    (e : ProviderError) (now : Moment) → Follows (On Suspended) (lookup_failed e now)
unfolding lookup_failed
lookup_failed-Suspended e now = search (suspended_rules, observe_ambiguity-Suspended) depth 12

known_ambiguity-Suspended :
    (o : Option ProviderPayment) (now : Moment) → Follows (On Suspended) (known_ambiguity o now)
unfolding known_ambiguity
known_ambiguity-Suspended o now = search suspended_rules depth 12

shut_fence-Suspended : (now : Moment) (i : PaymentIntentRow) → Suspended i (shut_fence now i)
shut_fence-Suspended now i h = elim (Bool-cases (is_none i.provider_create_fenced_at)) [
  | inl free ↦ rw free (record { seen = h; state = inl refl; linked = refl })
  | inr taken ↦ rw taken (record { seen = h; state = inl refl; linked = refl })
]

module _ (p : PaymentProvider) (now : Moment) where
  -- Where no ambiguity was seen the relation asks nothing.
  answered-Suspended :
      (a : Answer (Option ProviderPayment)) → Follows (On Suspended) (answered p now a)
  unfolding answered ◌>>=◌
  answered-Suspended (fails e) = lookup_failed-Suspended e now
  answered-Suspended (answer o) = record {
    at = λ s. elim (Bool-cases (is_some s.intent.provider_ambiguity_observed_at)) [
      | inl seen ↦ rw seen ((known_ambiguity-Suspended o now).at s)
      | inr unseen ↦ record { rows = λ e. absurd (cc) }
    ];
  }

  ask_provider-Suspended : Follows (On Suspended) (ask_provider p now)
  unfolding ask_provider
  ask_provider-Suspended = search (suspended_rules, answered-Suspended) depth 10

  module _ (c : Crypto) where
    look_or_shut-Suspended : Follows (On Suspended) (look_or_shut c p now)
    unfolding look_or_shut
    look_or_shut-Suspended =
        search (suspended_rules, shut_fence-Suspended, ask_provider-Suspended) depth 12

    open_reconcile-Suspended :
        (caps : CapabilitySet) → Follows (On Suspended) (open_reconcile c p caps now)
    unfolding open_reconcile
    open_reconcile-Suspended caps = search (suspended_rules, look_or_shut-Suspended) depth 14

    behind_shut_fence-Suspended : Follows (On Suspended) (behind_shut_fence c p now)
    unfolding behind_shut_fence
    behind_shut_fence-Suspended = search (suspended_rules, ask_provider-Suspended) depth 14

    close_reconcile-Suspended :
        (others : PaymentIntentRow → PaymentIntentRow)
        → ((i : PaymentIntentRow) → Suspended i (others i))
        → (pause : Pause) → Follows (On Suspended) (close_reconcile c p others now pause)
    unfolding close_reconcile relock
    close_reconcile-Suspended others legal (done r) = search suspended_rules
    close_reconcile-Suspended others legal shut =
        search (suspended_rules, behind_shut_fence-Suspended) depth 8

    -- Whatever the provider answers: a reconciliation of an intent whose provider ambiguity has
    -- been observed keeps the observation, links no provider payment, and leaves the intent in
    -- its state or in PROVIDER_PENDING, as long as the other transactions between its two halves
    -- do the same.
    pub reconcile_intent-Suspended :
        (caps : CapabilitySet) (others : PaymentIntentRow → PaymentIntentRow)
        → ((i : PaymentIntentRow) → Suspended i (others i))
        → Follows (On Suspended) (reconcile_intent c p caps others now)
    unfolding reconcile_intent
    reconcile_intent-Suspended caps others legal =
        Follows-bind OnSuspended _ _ (open_reconcile-Suspended caps)
          (close_reconcile-Suspended others legal)
