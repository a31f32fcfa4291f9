-- ===== src/Tests/Payments.antt =====
-- The payment executor on concrete data.
use pactra.Base.{◌≤◌, ◌≡◌, refl, true, false, some, inl, inr, ◌+◌}
use pactra.Action.{ok, ◌>>=◌}
use pactra.Action.Follows.{Follows}
use pactra.Kernel.Capability.{enforce_registered, permits}
use pactra.Kernel.Transaction.{digest}
use pactra.Kernel.Authorization.Rows.{bound_of, digests_match}
use pactra.Kernel.Authorization.Proof.{
  expected_scheme, verify_authorization_for_payment, verify_origin,
}
use pactra.Payment.Rows.{PaymentIntentRow, answer}
use pactra.Payment.State.{PaymentIntentState, is_terminal}
use pactra.Payment.Executor.Session.{
  Session, update_intent, validate_provider_route, verify_intent_authorization, kernel, record_call,
}
use pactra.Payment.Executor.Uncertain.{requeue_retryable, record_payment_attempt}
use pactra.Payment.Executor.Apply.{apply_provider_payment, validate_provider_payment}
use pactra.Payment.Executor.Recover.{look_up, catch_mismatch}
use pactra.Payment.Executor.Create.{search_and_create, preflight, create, created, settled}
use pactra.Payment.Executor.Dispatch.{
  open_dispatch, choose_path, start_create, prepare_create, acquire_provider_create_fence,
  behind_fence, dispatch_create, committed,
}
use pactra.Payment.Executor.Creating.{Spends}
use pactra.Payment.Executor.Moves.{Keeps, RowMoves-refl, creates}
use pactra.Payment.Executor.Fence.{
  Acquires, dispatch_create-Spends, open_dispatch-Acquires, behind_fence-loser,
}
use pactra.Payment.Workers.{World, Answering, Step, Steps, at_most_one_create}
use pactra.Tests.Samples.{crypto, intent, session_of, provider, executor, payment_for}

abbrev fenced_intent : PaymentIntentRow
fenced_intent = record intent { provider_create_fenced_at = some 300 }

fenced : (open_dispatch crypto provider executor 300 (session_of intent)).0 ≡ ok (committed true)
unfolding ◌>>=◌ open_dispatch enforce_registered validate_provider_route choose_path is_terminal
    start_create prepare_create requeue_retryable verify_intent_authorization kernel
    verify_authorization_for_payment bound_of digests_match verify_origin
    acquire_provider_create_fence update_intent permits digest expected_scheme
fenced = refl

-- The holder of the fence creates the payment.
paid : creates (behind_fence crypto provider true 310 (session_of fenced_intent)).1.calls ≡ 1
unfolding ◌>>=◌ behind_fence validate_provider_route verify_intent_authorization kernel
    verify_authorization_for_payment bound_of digests_match verify_origin search_and_create look_up
    record_call preflight create digest expected_scheme record_payment_attempt
    pactra.Payment.Executor.Session.apply_payment_transition created catch_mismatch
    validate_provider_payment apply_provider_payment
    pactra.Payment.Executor.Apply.link_provider_payment pactra.Payment.Executor.Apply.assign_once
    pactra.Payment.Executor.Apply.assign_to pactra.Payment.State.provider_status_to_state
    is_terminal pactra.Payment.Executor.Apply.settle pactra.Payment.Executor.Apply.note_attempts
    pactra.Payment.Executor.Apply.note_status pactra.Payment.Executor.Session.apply_mission_state
    settled pactra.Payment.Executor.Session.complete_event
    pactra.Payment.Executor.Session.update_event update_intent
    pactra.Payment.Executor.Session.append_event pactra.Payment.State.assert_payment_transition
    pactra.Payment.State.can_transition pactra.Payment.Executor.Apply.describes
    pactra.Payment.Executor.Recover.caught requeue_retryable
paid = refl

-- One worker takes the fence, creates the payment, and dies before its commit.
abbrev fenced_world : World
fenced_world = record {
  intent = (open_dispatch crypto provider executor 300 (session_of intent)).1.intent;
  created = 0 + creates (open_dispatch crypto provider executor 300 (session_of intent)).1.calls;
  holders = 0 + 1;
}

abbrev fenced_session : Session
fenced_session = session_of fenced_world.intent

abbrev paid_world : World
paid_world = record {
  intent = fenced_world.intent;
  created =
      fenced_world.created + creates (behind_fence crypto provider true 310 fenced_session).1.calls;
  holders = 0;
}

abbrev answering : Answering
answering = record { provider = provider; fenced = refl }

two-Steps : Steps crypto (record { intent = intent; created = 0; holders = 0 }) paid_world
two-Steps =
    Steps.next
      (Steps.next Steps.here (
        Step.acquires answering executor 300 (session_of intent)
          (record { row = refl; fresh = refl }) fenced))
      (Step.proceeds answering 310 fenced_session fenced_world.intent 0
        (record { row = refl; fresh = refl }) refl (inr refl))

-- The provider as it answers afterwards: a look-up finds the payment that it was asked to create.
abbrev finding : Answering
finding = record {
  provider = record provider {
    get_payment = λ reference key. answer (
        some (
          payment_for (record {
            idempotency_key = 32;
            amount_inr = 400;
            currency = 23;
            merchant_id = 21;
            transaction_digest_prefix = 0;
          })));
  };
  fenced = refl;
}

-- Another worker recovers the payment.
abbrev recovered_world : World
recovered_world = record {
  intent = (behind_fence crypto finding.provider false 320 fenced_session).1.intent;
  created =
      paid_world.created
      + creates (behind_fence crypto finding.provider false 320 fenced_session).1.calls;
  holders = 0;
}

at_most_one_create_example : recovered_world.created ≤ 1
at_most_one_create_example = at_most_one_create crypto intent (
    Steps.next two-Steps (
      Step.recovers finding 320 fenced_session recovered_world.intent
        (record { row = refl; fresh = refl }) (inl refl)))

-- The recovery settles the payment.
recovered : recovered_world.intent.state ≡ PaymentIntentState.succeeded
unfolding open_dispatch ◌>>=◌ behind_fence validate_provider_route verify_intent_authorization
    kernel verify_authorization_for_payment bound_of digests_match verify_origin search_and_create
    look_up record_call preflight create digest expected_scheme record_payment_attempt
    pactra.Payment.Executor.Session.apply_payment_transition created catch_mismatch
    validate_provider_payment apply_provider_payment
    pactra.Payment.Executor.Apply.link_provider_payment pactra.Payment.Executor.Apply.assign_once
    pactra.Payment.Executor.Apply.assign_to pactra.Payment.State.provider_status_to_state
    is_terminal pactra.Payment.Executor.Apply.settle pactra.Payment.Executor.Apply.note_attempts
    pactra.Payment.Executor.Apply.note_status pactra.Payment.Executor.Session.apply_mission_state
    settled pactra.Payment.Executor.Session.complete_event
    pactra.Payment.Executor.Session.update_event update_intent
    pactra.Payment.Executor.Session.append_event pactra.Payment.State.assert_payment_transition
    pactra.Payment.State.can_transition pactra.Payment.Executor.Apply.describes
    pactra.Payment.Executor.Recover.caught requeue_retryable enforce_registered permits choose_path
    start_create prepare_create acquire_provider_create_fence
    pactra.Payment.Executor.Recover.recover_fenced_create pactra.Payment.Executor.Recover.recovered
    pactra.Payment.Executor.Recover.finish_existing_before_create
    pactra.Payment.Executor.Recover.adopt
recovered = refl

dispatch_create-Spends_example :
    Follows Spends (dispatch_create crypto provider executor (λ i. i) 300)
dispatch_create-Spends_example =
    dispatch_create-Spends crypto provider 300 executor refl (λ i. i) RowMoves-refl

open_dispatch-Acquires_example :
    Acquires crypto provider 300
      (session_of intent)
      (open_dispatch crypto provider executor 300 (session_of intent)).1
open_dispatch-Acquires_example =
    open_dispatch-Acquires crypto provider 300 executor refl (session_of intent) fenced

behind_fence-loser_example : Follows Keeps (behind_fence crypto provider false 310)
behind_fence-loser_example = behind_fence-loser crypto provider 310
