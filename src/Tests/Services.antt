-- ===== src/Tests/Services.antt =====
-- The authorization service, the firewall and the state machines on concrete data.
use pactra.Base.{◌≤◌, ◌≡◌, ◌≢◌, refl, true, some, [], ◌∷◌, List, arith, count, find}
use pactra.Domain.{Failure, MissionState, require_approval}
use pactra.Audit.Rows.{repeat}
use pactra.Kernel.Approval.{user_ed25519}
use pactra.Action.{ok, raised, ◌>>=◌}
use pactra.Mission
use pactra.Mission.Reach as Missions
use pactra.Kernel.Capability.{
  CapabilitySet, Capability, security_kernel, payment_executor, enforce_registered, permits,
  buyer_agent,
}
use pactra.Kernel.Capability.Duties.{enforce_registered-duties, enforce_registered-nobody}
use pactra.Kernel.Transaction.{Crypto, Characters, digest}
use pactra.Kernel.Authorization.Rows.{
  AuthorizationRow, pending, consumed, has_id, bound_of, digests_match, audit, apply_transition,
  reload, Store, PolicyDecisionRow,
}
use pactra.Kernel.Authorization.Proof.{
  expected_scheme, verify_authorization_for_payment, verify_origin,
  approve_authorization_with_signature, check_proof, verify_supplied_user_proof,
}
use pactra.Kernel.Authorization.Lifecycle.{
  consume_authorization, issue_authorization, issued_row, add_row,
}
use pactra.Kernel.Authorization.Classify.{
  expire_if_stale, classify_and_raise, raise_replay, expiring, record_expiry,
}
use pactra.Kernel.Authorization.Operations.{Grows}
use pactra.Kernel.Authorization.Evolution.{AllSound}
use pactra.Kernel.Authorization.Refusals.{refusal, classify_and_raise-eq}
use pactra.Kernel.Authorization.Verdict.{consume_verdict, consume_authorization-verdict}
use pactra.Kernel.Authorization.Binding.{
  Verified, verify_authorization_for_payment-Verified, consume_authorization-binds,
}
use pactra.Kernel.Authorization.History.{
  Request, perform, run, run-Grows, run-AllSound, consume_once,
}
use pactra.Payment.State.{PaymentIntentState, is_terminal, succeeded}
use pactra.Payment.State.Reach as Payments
use pactra.Tests.Texts.{crypto-Readable}
use pactra.Tests.Samples.{crypto, transaction, active_row, spent_row, store_of, executor}

abbrev later_requests : List Request
later_requests = Request.expire 11 400 ∷ Request.consume 11 transaction 500 ∷ []

abbrev before : Store
before = store_of active_row

one_row : count (has_id 11) before.authorizations ≤ 1
one_row = omega arith

consumed_ok : (consume_authorization crypto 11 transaction 200 before).0 ≡ ok spent_row
unfolding consume_authorization ◌>>=◌ apply_transition reload audit digest
consumed_ok = refl

one_row_after :
    count
      (has_id 11)
      (run crypto later_requests
        (consume_authorization crypto 11 transaction 200 before).1).authorizations
    ≤ 1
unfolding run perform expire_if_stale consume_authorization ◌>>=◌ apply_transition reload audit
    digest classify_and_raise raise_replay expiring record_expiry
one_row_after = omega arith

consume_once_example :
    (consume_authorization crypto 11 transaction 600
      (run crypto later_requests (consume_authorization crypto 11 transaction 200 before).1)).0
    ≡ raised Failure.replay_detected
consume_once_example =
    consume_once crypto 11 transaction 200 before spent_row one_row consumed_ok later_requests
      transaction 600 one_row_after

run-Grows_example : Grows crypto before (run crypto later_requests before)
run-Grows_example = run-Grows crypto later_requests before

abbrev kernel : CapabilitySet
kernel = record {
  principal = security_kernel;
  allow = Capability.authorization_issue ∷ Capability.payment_propose ∷ [];
  deny =
      Capability.payment_execute ∷ Capability.refund_execute ∷ Capability.policy_modify
      ∷ Capability.merchant_modify ∷ [];
  limits = [];
}

-- The same samples with a configured approver.
abbrev approving : Crypto
approving = record crypto { approver_public_key = some (repeat 64 b'1') }

abbrev decided : List PolicyDecisionRow
decided =
    record { mission_id = 5; policy_version = 24; decision = require_approval; created_at = 90 }
    ∷ []

abbrev signature : Characters
signature = repeat 128 b'a'

-- An authorization of the user's scheme is issued, approved with a signature and consumed.
abbrev signed_requests : List Request
signed_requests =
    Request.issue 11 kernel 5 transaction user_ed25519 100
    ∷ Request.approve 5 11 8 signature 150
    ∷ Request.consume 11 transaction 200
    ∷ []

abbrev signed_row : AuthorizationRow
signed_row = record active_row {
  approval_scheme = user_ed25519;
  signing_key_id = some 8;
  approval_signature = some signature;
  status = consumed;
  consumed_at = some 200;
}

abbrev empty : Store
empty = record { authorizations = []; decisions = decided; audit = [] }

signed : (run approving signed_requests empty).authorizations ≡ signed_row ∷ []
unfolding run perform ◌>>=◌ issue_authorization approve_authorization_with_signature
    consume_authorization apply_transition reload audit digest enforce_registered permits bound_of
    digests_match check_proof expected_scheme verify_supplied_user_proof add_row issued_row
    pactra.Kernel.Authorization.Proof.rebuild_bound_transaction
    pactra.Kernel.Approval.verify_user_ed25519_signature
signed = refl

run-AllSound_example : AllSound approving (run approving signed_requests empty).authorizations
run-AllSound_example = run-AllSound approving signed_requests decided

consume_authorization-verdict_example :
    (consume_authorization crypto 11 transaction 950 before).0
    ≡ consume_verdict crypto transaction 950 (find (has_id 11) before.authorizations)
consume_authorization-verdict_example =
    consume_authorization-verdict crypto 11 950 before one_row transaction

abbrev pending_row : AuthorizationRow
pending_row = record active_row { status = pending }

classify_and_raise-eq_example :
    (classify_and_raise crypto 11 (some transaction) 950 (store_of spent_row)).0
    ≡ raised (
        refusal crypto
          (some transaction)
          950
          (find (has_id 11) (store_of spent_row).authorizations))
classify_and_raise-eq_example =
    classify_and_raise-eq crypto 11 (some transaction) 950 (store_of spent_row)

verified :
    (verify_authorization_for_payment crypto spent_row consumed 300 (store_of spent_row)).0
    ≡ ok transaction
unfolding verify_authorization_for_payment ◌>>=◌ bound_of digests_match verify_origin digest
    expected_scheme
verified = refl

verify_authorization_for_payment-Verified_example :
    Verified crypto spent_row consumed 300 before.decisions transaction
verify_authorization_for_payment-Verified_example =
    verify_authorization_for_payment-Verified crypto spent_row consumed 300 (store_of spent_row)
      verified

digest-issued : active_row.transaction_digest ≡ digest crypto transaction
unfolding digest
digest-issued = refl

consume_authorization-binds_example : transaction ≡ transaction
consume_authorization-binds_example =
    consume_authorization-binds crypto 11 transaction transaction 200 before active_row spent_row
      one_row refl digest-issued crypto-Readable (λ e. refl) consumed_ok

-- The guard lets the executor through, whatever the order of its denials.
executor_passes : (enforce_registered executor Capability.payment_execute tt).0 ≡ ok tt
unfolding enforce_registered permits ◌>>=◌
executor_passes = refl

kernel_passes : (enforce_registered kernel Capability.authorization_issue tt).0 ≡ ok tt
unfolding enforce_registered permits ◌>>=◌
kernel_passes = refl

enforce_registered-duties_example :
    (kernel.principal ≡ security_kernel)
    × (executor.principal ≡ payment_executor)
    × (kernel.principal ≢ executor.principal)
enforce_registered-duties_example =
    enforce_registered-duties kernel executor tt tt kernel_passes executor_passes

-- A buyer's agent that claims everything for itself.
abbrev greedy : CapabilitySet
greedy = record {
  principal = buyer_agent;
  allow = Capability.refund_execute ∷ Capability.policy_modify ∷ Capability.merchant_modify ∷ [];
  deny = [];
  limits = [];
}

enforce_registered-nobody_example :
    ((enforce_registered greedy Capability.refund_execute tt).0 ≡ raised Failure.capability_denied)
    × ((enforce_registered greedy Capability.policy_modify tt).0 ≡ raised Failure.capability_denied)
    × ((enforce_registered greedy Capability.merchant_modify tt).0
        ≡ raised Failure.capability_denied)
enforce_registered-nobody_example = enforce_registered-nobody greedy tt

paying : Missions.Reach MissionState.payment_pending true
unfolding Mission.can_transition
paying =
    Missions.Reach.next MissionState.authorized MissionState.payment_pending _
      (Missions.Reach.next MissionState.policy_checked MissionState.authorized _
        (Missions.Reach.next MissionState.ranked MissionState.policy_checked _
          (Missions.Reach.next MissionState.offers_normalized MissionState.ranked _
            (Missions.Reach.next MissionState.offers_received MissionState.offers_normalized _
              (Missions.Reach.next MissionState.discovering MissionState.offers_received _
                (Missions.Reach.next MissionState.intent_parsed MissionState.discovering _
                  (Missions.Reach.next MissionState.created MissionState.intent_parsed _
                    Missions.Reach.start refl)
                  refl)
                refl)
              refl)
            refl)
          refl)
        refl)
      refl

payment_needs_authorization_example : true ≡ true
payment_needs_authorization_example = Missions.payment_needs_authorization paying refl

is_terminal-succeeded : is_terminal succeeded ≡ true
unfolding is_terminal
is_terminal-succeeded = refl

terminal_absorbs_example : PaymentIntentState.succeeded ≡ PaymentIntentState.succeeded
terminal_absorbs_example = Payments.terminal_absorbs is_terminal-succeeded Payments.Reach.here
