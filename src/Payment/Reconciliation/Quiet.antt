-- ===== src/Payment/Reconciliation/Quiet.antt =====
-- Reconciliation creates no payment and moves the intent as the state machine permits.
use pactra.Base.{
  Moment, refl, Bool, Option, none, some, is_none, Bool-cases, inl, inr, String, arith,
}
use pactra.Domain.{ReasonCode}
use pactra.Action.{◌>>=◌}
use pactra.Action.Follows.{Follows, Follows-bind}
use pactra.Kernel.Capability.{CapabilitySet}
use pactra.Kernel.Transaction.{Crypto}
use pactra.Payment.State.{
  PaymentIntentState, can_transition, failed_retryable, assert_payment_transition,
}
use pactra.Payment.State.Reach.{here, next}
use pactra.Payment.Rows.{
  PaymentIntentRow, ProviderPayment, ProviderError, Answer, answer, fails, PaymentProvider,
}
use pactra.Payment.Held
use pactra.Payment.Executor.Session.{update_intent, hold}
use pactra.Payment.Executor.Dispatch.{relock}
use pactra.Payment.Executor.Moves.{
  RowMoves, RowMoves-refl, Keeps, Keeps-IsPreorder, update_intent-Keeps,
}
use pactra.Payment.Executor.Keeping.{
  keeps_rules, verify_intent_authorization-Keeps, validate_provider_route-Keeps,
  validate_provider_payment-Keeps, apply_provider_payment-Keeps,
}
use pactra.Payment.Executor.Recovering.{
  remember-moves, reason_moves, catch_mismatch-Keeps, record_payment_attempt-Keeps,
}
use pactra.Payment.Executor.Fence.{already_terminal-Keeps, enforce-Keeps}
use pactra.Payment.Reconciliation.Branches.{
  audit_round, observe_ambiguity, lookup_failed, known_ambiguity, linked_unresolved,
  fenced_unresolved, make_retryable, resolve_no_provider_payment, fold_found, resolved, adopt_found,
  found_nothing,
}
use pactra.Payment.Reconciliation.Reconcile.{
  weigh, answered, ask_provider, shut_fence, Pause, done, shut, look_or_shut, open_reconcile,
  behind_shut_fence, close_reconcile, reconcile_intent,
}

audit_round-Keeps :
    (b : Bool) (r : ReasonCode) (phase : String) → Follows Keeps (audit_round b r phase)
unfolding audit_round
audit_round-Keeps b r phase = search keeps_rules depth 8

observe_ambiguity-Keeps :
    (e : ProviderError) (now : Moment) → Follows Keeps (observe_ambiguity e now)
unfolding observe_ambiguity
observe_ambiguity-Keeps e now = search (keeps_rules, update_intent-Keeps, remember-moves) depth 12

lookup_failed-Keeps : (e : ProviderError) (now : Moment) → Follows Keeps (lookup_failed e now)
unfolding lookup_failed
lookup_failed-Keeps e now =
    search (keeps_rules, observe_ambiguity-Keeps, audit_round-Keeps) depth 12

known_ambiguity-Keeps :
    (payment : Option ProviderPayment) (now : Moment) → Follows Keeps (known_ambiguity payment now)
unfolding known_ambiguity
known_ambiguity-Keeps payment now =
    search (keeps_rules, update_intent-Keeps, remember-moves) depth 12

linked_unresolved-Keeps : (now : Moment) → Follows Keeps (linked_unresolved now)
unfolding linked_unresolved
linked_unresolved-Keeps now = search (keeps_rules, audit_round-Keeps) depth 12

fenced_unresolved-Keeps : (now : Moment) → Follows Keeps (fenced_unresolved now)
unfolding fenced_unresolved
fenced_unresolved-Keeps now =
    search (keeps_rules, audit_round-Keeps, update_intent-Keeps, reason_moves) depth 14

fold_found-Keeps : (p : ProviderPayment) (now : Moment) → Follows Keeps (fold_found p now)
unfolding fold_found
fold_found-Keeps p now =
    search
      (
        keeps_rules, validate_provider_payment-Keeps, record_payment_attempt-Keeps,
        apply_provider_payment-Keeps,
      )
      depth 12

resolved-Keeps :
    (p : ProviderPayment) (now : Moment) (o : Option PaymentIntentState)
    → Follows Keeps (resolved p now o)
unfolding resolved
resolved-Keeps p now none = search (keeps_rules, audit_round-Keeps) depth 12
resolved-Keeps p now (some st) = search keeps_rules depth 14

adopt_found-Keeps : (p : ProviderPayment) (now : Moment) → Follows Keeps (adopt_found p now)
unfolding adopt_found
adopt_found-Keeps p now =
    search (keeps_rules, catch_mismatch-Keeps, fold_found-Keeps, resolved-Keeps) depth 12

make_retryable-Keeps : Follows Keeps make_retryable
unfolding make_retryable ◌>>=◌ update_intent hold Held.update_intent assert_payment_transition
make_retryable-Keeps = record {
  at = λ s. elim (Bool-cases (can_transition s.intent.state failed_retryable)) [
    | inl permitted ↦ rw permitted (record {
      moves = record {
        same = refl;
        path = next here permitted;
        fence = λ a e. e;
        ambiguity = λ a e. e;
        linked = λ k e. e;
      };
      silent = refl;
    })
    | inr illegal ↦ rw illegal (Keeps-IsPreorder.reflexive s)
  ];
}

resolve_no_provider_payment-Keeps : (now : Moment) → Follows Keeps (resolve_no_provider_payment now)
unfolding resolve_no_provider_payment
resolve_no_provider_payment-Keeps now = search (keeps_rules, make_retryable-Keeps) depth 14

found_nothing-Keeps : (p : PaymentProvider) (now : Moment) → Follows Keeps (found_nothing p now)
unfolding found_nothing
found_nothing-Keeps p now =
    search
      (
        keeps_rules, linked_unresolved-Keeps, fenced_unresolved-Keeps,
        resolve_no_provider_payment-Keeps,
      )
      depth 10

weigh-Keeps :
    (p : PaymentProvider) (now : Moment) (o : Option ProviderPayment)
    → Follows Keeps (weigh p now o)
unfolding weigh
weigh-Keeps p now none = found_nothing-Keeps p now
weigh-Keeps p now (some payment) = adopt_found-Keeps payment now

answered-Keeps :
    (p : PaymentProvider) (now : Moment) (a : Answer (Option ProviderPayment))
    → Follows Keeps (answered p now a)
unfolding answered
answered-Keeps p now (fails e) = lookup_failed-Keeps e now
answered-Keeps p now (answer o) = search (keeps_rules, known_ambiguity-Keeps, weigh-Keeps) depth 10

ask_provider-Keeps : (p : PaymentProvider) (now : Moment) → Follows Keeps (ask_provider p now)
unfolding ask_provider
ask_provider-Keeps p now = search (keeps_rules, answered-Keeps) depth 10

shut_fence-moves : (now : Moment) (i : PaymentIntentRow) → RowMoves i (shut_fence now i)
shut_fence-moves now i = elim (Bool-cases (is_none i.provider_create_fenced_at)) [
  | inl free ↦ rw free (record {
    same = refl;
    path = here;
    fence = λ a e. absurd (ground arith);
    ambiguity = λ a e. e;
    linked = λ k e. e;
  })
  | inr taken ↦ rw taken (RowMoves-refl i)
]

look_or_shut-Keeps :
    (c : Crypto) (p : PaymentProvider) (now : Moment) → Follows Keeps (look_or_shut c p now)
unfolding look_or_shut
look_or_shut-Keeps c p now =
    search
      (
        keeps_rules, verify_intent_authorization-Keeps, update_intent-Keeps, shut_fence-moves,
        ask_provider-Keeps,
      )
      depth 12

-- The first half of a reconciliation, whatever the provider answers, creates no payment, moves the
-- intent along permitted transitions only, never clears the fence, the ambiguity or the
-- provider's reference, and never changes what is to be paid.
pub open_reconcile-Keeps :
    (c : Crypto) (p : PaymentProvider) (caps : CapabilitySet) (now : Moment)
    → Follows Keeps (open_reconcile c p caps now)
unfolding open_reconcile
open_reconcile-Keeps c p caps now =
    search
      (
        keeps_rules, enforce-Keeps, validate_provider_route-Keeps, already_terminal-Keeps,
        look_or_shut-Keeps,
      )
      depth 14

-- So does the second half, behind the fence that the first has shut.
pub behind_shut_fence-Keeps :
    (c : Crypto) (p : PaymentProvider) (now : Moment) → Follows Keeps (behind_shut_fence c p now)
unfolding behind_shut_fence
behind_shut_fence-Keeps c p now =
    search
      (
        keeps_rules, validate_provider_route-Keeps, already_terminal-Keeps,
        verify_intent_authorization-Keeps, ask_provider-Keeps,
      )
      depth 14

close_reconcile-Keeps :
    (c : Crypto) (p : PaymentProvider) (others : PaymentIntentRow → PaymentIntentRow) (now : Moment)
    → ((i : PaymentIntentRow) → RowMoves i (others i))
    → (pause : Pause) → Follows Keeps (close_reconcile c p others now pause)
unfolding close_reconcile relock
close_reconcile-Keeps c p others now legal (done r) = search keeps_rules
close_reconcile-Keeps c p others now legal shut =
    search (keeps_rules, update_intent-Keeps, behind_shut_fence-Keeps) depth 8

-- A whole reconciliation, whatever the provider answers and whatever other transactions do to the
-- intent between its two halves as long as they move it as RowMoves allows: it creates no
-- payment, moves the intent along permitted transitions only, and never clears the fence, the
-- ambiguity or the provider's reference, nor changes what is to be paid.
pub reconcile_intent-Keeps :
    (c : Crypto) (p : PaymentProvider) (caps : CapabilitySet)
    (others : PaymentIntentRow → PaymentIntentRow) (now : Moment)
    → ((i : PaymentIntentRow) → RowMoves i (others i))
    → Follows Keeps (reconcile_intent c p caps others now)
unfolding reconcile_intent
reconcile_intent-Keeps c p caps others now legal =
    Follows-bind Keeps-IsPreorder _ _ (open_reconcile-Keeps c p caps now)
      (close_reconcile-Keeps c p others now legal)
