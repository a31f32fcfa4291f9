-- ===== src/Lib.antt =====
-- Pactra: the security kernel and the payment executor of an agentic commerce platform.
--
-- An untrusted agent proposes a purchase among the offers that merchants quote; a policy engine
-- allows it, asks for approval or denies it. The security kernel binds one exact transaction to an
-- authorization, by digest, and lets it be approved (by policy, or by a user's Ed25519 signature) and
-- consumed. The consumption leaves a payment intent and an outbox event; workers claim the
-- event and dispatch the payment to a provider, whose answers can be lost, late or ambiguous.
-- Webhooks of the provider and rounds of reconciliation settle what a dispatch left open. The
-- authorization is verified again before every exchange with the provider, and a one-way fence on
-- the intent guards the request that creates a payment.
--
-- Which file models which part:
-- - Domain (packages/schemas/domain.py): mission states, policy outcomes, reason codes, event types
--   and payloads of the audit log, and the failures that the services raise.
-- - Action: a service function is an action, which takes a state and gives a result, or the failure
--   it raises, with the state that it leaves. Action/Follows relates the states before and after, and
--   Action/Reads is about actions that change nothing.
-- - Mission (services/agent_orchestrator/state_machine.py): allowed_transitions, can_transition,
--   assert_transition.
-- - Kernel/Capability (services/security_kernel/capability.py and capability_registry.py,
--   packages/schemas/capability.py): permits, enforce, capabilities_for, enforce_registered.
-- - Kernel/Transaction (packages/schemas/transaction.py and canonical.py): BoundTransaction,
--   canonical_fields, digest, canonical_message. Canonical and Digest show that a transaction can be
--   read back from the text that its digest hashes.
-- - Kernel/Approval (services/security_kernel/approval.py, packages/schemas/approval.py): the
--   challenge and verify_user_ed25519_signature.
-- - Kernel/Authorization (services/security_kernel/authorization.py, packages/schemas/authorization.py):
--   Rows holds the tables and the conditional UPDATE (_apply_transition, _reload, _audit), Classify
--   expire_if_stale and _classify_and_raise, Lifecycle issue, activate, consume and
--   revoke_authorization, Proof approve_authorization_with_signature and
--   verify_authorization_for_payment. Proofs are in Ruling and Origin (what an
--   accepted scheme and origin show), Evolution (how a row may change), Operations,
--   Transitions and Approving (on each operation), Refusals, Answers and Verdict (on what a refused
--   and a performed transition answer), Binding (on the terms) and History (on any sequence of
--   requests).
-- - Payment/State (services/payment_executor/state_machine.py, packages/schemas/payment.py): the
--   states of an intent and their transitions.
-- - Payment/Rows (apps/api/db/models.py, services/payment_executor/providers/base.py): rows, requests,
--   answers and errors of a provider.
-- - Payment/Outbox (services/payment_executor/outbox.py): enqueue, claim, complete, reschedule. Claims,
--   Leases and Retries hold the proofs on claims, on leases and on rescheduling.
-- - Payment/Executor (services/payment_executor/executor.py): Session has what a dispatch holds and its
--   small steps, Apply the folding of a provider's answer, Uncertain the recording of ambiguity and
--   attempts, Recover the search-only path, Create the path that may create, Dispatch the fence and
--   dispatch_create. Moves, Same, Keeping, Recovering, Creating and Fence hold the proofs on these.
-- - Payment/Held: the moves of an intent and its mission that the executor, the intents and the
--   webhooks share (apply_payment_transition, apply_mission_state). Payment/Tables: the tables that
--   the parts below work on.
-- - Payment/Reconciliation (services/payment_executor/reconciliation.py): Branches has what a round
--   does with each answer, Reconcile reconcile_intent. Quiet, Barred, Fenced and Ambiguous hold the
--   proofs.
-- - Payment/Webhooks (services/payment_executor/webhooks.py, packages/schemas/payment.py): Events has
--   the events, Deliver the delivery to one intent, Handle handle_webhook. Moves, Suspended, Duplicates
--   and Rowwise hold the proofs.
-- - Payment/Intents (services/payment_executor/intents.py, request_fingerprint of
--   packages/schemas/payment.py): Create has create_payment_intent; Examined, Reuse, Atomic, Spending
--   and Paying hold the proofs.
-- - Payment/Worker (services/payment_executor/worker.py): Process has process_claimed_event over the
--   tables, Turn run_once and drain; Idle and Recovery hold the proofs.
-- - Payment/Workers: any number of dispatches, reconciliations and webhooks, interleaved.
-- - Policy (services/policy_engine, services/security_kernel, packages/schemas): Provenance has the
--   authority lattice (authority.py, provenance.py), Register the policy register
--   (policy_register.py), Offers the ingress of offers (ingress.py, kernel.py, merchant.py),
--   Normalization, Ranking and Engine the files of these names, Selection their composition in
--   services/agent_orchestrator/orchestrator.py. Every, Best and Decided hold the proofs.
-- - Audit (services/audit_ledger/ledger.py, hashing.py and verify.py): Rows has the events, their
--   bodies and append_event, Verify the checks of verify_events in their order. Chain, Order,
--   Contents and Appends hold the proofs.
-- - Tests: runs on concrete data and instances of the theorems.
--
-- How the code is read:
-- - A text that is only stored and compared is a number, and the empty text is 0. An instant is a
--   number of microseconds. Texts for people are left out or kept as a symbol with the provider's
--   own detail. uuid4 is an argument or a counter.
-- - SHA-256, Ed25519, the loading of a key, the settings, and what json.dumps and strftime write for one
--   scalar and one instant are the record Crypto, a parameter. A
--   provider is the record of its answers, a parameter too: each theorem holds for any. The check of a
--   webhook's signature (verify_webhook) is a parameter of the webhooks.
-- - One statement of SQL is one function of the table. What a service function does between two
--   commits runs under its row lock or in its transaction and is one action; where the executor
--   commits in the middle, after the fence, the definition is in two halves, and what other
--   transactions commit there is an argument (`others`, or the record Meanwhile of the worker) or
--   steps of their own. A failure keeps the state it was raised in; Workers lets such a state be
--   rolled back or kept, and the worker rolls it back to the last commit. A savepoint that fails gives
--   the tables back as they were when it was opened.
-- - Where a service appends to the audit log, it adds an entry to a list, with the payload the code
--   gives; the chain of hashes is built by the audit ledger's own definitions.
-- - SHA-256 over an audit event and json.dumps of its body are the record EventHash, a parameter. A
--   negative sequence and an absent instant are not represented.
-- - A claim takes the locks that other transactions hold, which SKIP LOCKED passes over, or what they
--   commit between the two statements of the portable claim. A provider is fixed within one
--   transaction only: Workers lets it answer differently at every step.
-- - The construction checks of a schema (lengths, patterns, positive amounts) are not repeated: they
--   only narrow the inputs.
-- - A rating, a trust score or an identifier that is only compared is the number of its place in its
--   order; a price is an exact dyadic fraction. `str.upper` is a parameter.
-- - All definitions are structural; there is no fuel. `drain` recurses on max_events, as its loop
--   does.
--
-- Not modelled: the replay of the audit log and the registry of merchants; the clients of the
-- providers and the process around the worker, which are network and process I/O; the risk engine,
-- the attack lab, the adapters, the rest of the orchestrator, the HTTP interface, the migrations and
-- the web client, which hold no authority of their own.
pub mod Base
pub mod Domain
pub mod Action
pub mod Mission
pub mod Kernel
pub mod Payment
pub mod Policy
pub mod Audit
pub mod Tests
