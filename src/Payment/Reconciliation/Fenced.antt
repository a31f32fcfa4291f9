-- ===== src/Payment/Reconciliation/Fenced.antt =====
-- Reconciliation of a payment whose creation is fenced.
use pactra.Base.{
  Moment, ◌≡◌, Bool, false, Option, none, some, is_some, Bool-cases, inl, inr, String, arith,
  is_none,
}
use pactra.Domain.{ReasonCode}
use pactra.Action.{◌>>=◌}
use pactra.Action.Follows.{Follows, Follows-bind}
use pactra.Kernel.Capability.{CapabilitySet}
use pactra.Kernel.Transaction.{Crypto}
use pactra.Payment.State.{PaymentIntentState}
use pactra.Payment.Rows.{
  PaymentIntentRow, ProviderPayment, ProviderError, Answer, answer, fails, PaymentProvider,
}
use pactra.Payment.Executor.Dispatch.{relock}
use pactra.Payment.Executor.Same.{On, Same, same_rules}
use pactra.Payment.Reconciliation.Branches.{
  audit_round, observe_ambiguity, lookup_failed, known_ambiguity, linked_unresolved,
  fenced_unresolved, fold_found, resolved, adopt_found, found_nothing,
}
use pactra.Payment.Reconciliation.Reconcile.{
  weigh, answered, ask_provider, shut_fence, Pause, done, shut, look_or_shut, open_reconcile,
  behind_shut_fence, close_reconcile, reconcile_intent,
}
use pactra.Payment.Reconciliation.Barred.{
  Barred, OnBarred, barred_rules, record_payment_attempt-Barred, caught-Barred,
  apply_provider_payment-Barred,
}

pub audit_round-Same :
    (b : Bool) (r : ReasonCode) (phase : String) → Follows Same (audit_round b r phase)
unfolding audit_round
audit_round-Same b r phase = search same_rules depth 8

observe_ambiguity-Barred :
    (e : ProviderError) (now : Moment) → Follows (On Barred) (observe_ambiguity e now)
unfolding observe_ambiguity
observe_ambiguity-Barred e now = search barred_rules depth 12

lookup_failed-Barred :
    (e : ProviderError) (now : Moment) → Follows (On Barred) (lookup_failed e now)
unfolding lookup_failed
lookup_failed-Barred e now =
    search (barred_rules, observe_ambiguity-Barred, audit_round-Same) depth 12

known_ambiguity-Barred :
    (o : Option ProviderPayment) (now : Moment) → Follows (On Barred) (known_ambiguity o now)
unfolding known_ambiguity
known_ambiguity-Barred o now = search barred_rules depth 12

linked_unresolved-Barred : (now : Moment) → Follows (On Barred) (linked_unresolved now)
unfolding linked_unresolved
linked_unresolved-Barred now = search (barred_rules, audit_round-Same) depth 12

fenced_unresolved-Barred : (now : Moment) → Follows (On Barred) (fenced_unresolved now)
unfolding fenced_unresolved
fenced_unresolved-Barred now = search (barred_rules, audit_round-Same) depth 14

fold_found-Barred : (p : ProviderPayment) (now : Moment) → Follows (On Barred) (fold_found p now)
unfolding fold_found
fold_found-Barred p now =
    search (barred_rules, record_payment_attempt-Barred, apply_provider_payment-Barred) depth 12

resolved-Barred :
    (p : ProviderPayment) (now : Moment) (o : Option PaymentIntentState)
    → Follows (On Barred) (resolved p now o)
unfolding resolved
resolved-Barred p now none = search (barred_rules, audit_round-Same) depth 12
resolved-Barred p now (some st) = search barred_rules depth 14

adopt_found-Barred : (p : ProviderPayment) (now : Moment) → Follows (On Barred) (adopt_found p now)
unfolding adopt_found
adopt_found-Barred p now =
    search (barred_rules, caught-Barred, fold_found-Barred, resolved-Barred) depth 12

shut_fence-Barred : (now : Moment) (i : PaymentIntentRow) → Barred i (shut_fence now i)
shut_fence-Barred now i = elim (Bool-cases (is_none i.provider_create_fenced_at)) [
  | inl free ↦ rw free λ e. absurd (ground arith)
  | inr taken ↦ rw taken λ e. (e, λ g. g)
]

module _ (p : PaymentProvider) (fenced : p.create_retries_are_idempotent ≡ false)
    (now : Moment) where
  -- Where the fence is free the relation asks nothing; where it is taken, the branch that makes
  -- the intent retryable is not entered.
  found_nothing-Barred : Follows (On Barred) (found_nothing p now)
  unfolding found_nothing ◌>>=◌
  found_nothing-Barred = record {
    at = λ s. elim (Bool-cases (is_some s.intent.provider_payment_id)) [
      | inl linked ↦ rw linked ((linked_unresolved-Barred now).at s)
      | inr unlinked ↦ elim (Bool-cases (is_some s.intent.provider_create_fenced_at)) [
        | inl taken ↦ rw (unlinked, taken, fenced) ((fenced_unresolved-Barred now).at s)
        | inr free ↦ record { rows = λ e. absurd (cc) }
      ]
    ];
  }

  weigh-Barred : (o : Option ProviderPayment) → Follows (On Barred) (weigh p now o)
  unfolding weigh
  weigh-Barred none = found_nothing-Barred
  weigh-Barred (some payment) = adopt_found-Barred payment now

  answered-Barred : (a : Answer (Option ProviderPayment)) → Follows (On Barred) (answered p now a)
  unfolding answered
  answered-Barred (fails e) = lookup_failed-Barred e now
  answered-Barred (answer o) = search (barred_rules, known_ambiguity-Barred, weigh-Barred) depth 10

  ask_provider-Barred : Follows (On Barred) (ask_provider p now)
  unfolding ask_provider
  ask_provider-Barred = search (barred_rules, answered-Barred) depth 10

  module _ (c : Crypto) where
    look_or_shut-Barred : Follows (On Barred) (look_or_shut c p now)
    unfolding look_or_shut
    look_or_shut-Barred = search (barred_rules, shut_fence-Barred, ask_provider-Barred) depth 12

    open_reconcile-Barred :
        (caps : CapabilitySet) → Follows (On Barred) (open_reconcile c p caps now)
    unfolding open_reconcile
    open_reconcile-Barred caps = search (barred_rules, look_or_shut-Barred) depth 14

    behind_shut_fence-Barred : Follows (On Barred) (behind_shut_fence c p now)
    unfolding behind_shut_fence
    behind_shut_fence-Barred = search (barred_rules, ask_provider-Barred) depth 14

    close_reconcile-Barred :
        (others : PaymentIntentRow → PaymentIntentRow)
        → ((i : PaymentIntentRow) → Barred i (others i))
        → (pause : Pause) → Follows (On Barred) (close_reconcile c p others now pause)
    unfolding close_reconcile relock
    close_reconcile-Barred others legal (done r) = search barred_rules
    close_reconcile-Barred others legal shut =
        search (barred_rules, behind_shut_fence-Barred) depth 8

    -- With a provider whose creates are not idempotent, and whatever it answers: a reconciliation
    -- of an intent whose create fence is taken leaves it taken, and leaves the intent in
    -- FAILED_RETRYABLE, from which it would be queued for creation, only if it was there before;
    -- as long as the other transactions between its two halves do the same.
    pub reconcile_intent-Barred :
        (caps : CapabilitySet) (others : PaymentIntentRow → PaymentIntentRow)
        → ((i : PaymentIntentRow) → Barred i (others i))
        → Follows (On Barred) (reconcile_intent c p caps others now)
    unfolding reconcile_intent
    reconcile_intent-Barred caps others legal =
        Follows-bind OnBarred _ _ (open_reconcile-Barred caps) (close_reconcile-Barred others legal)
