-- ===== src/Tests/Samples.antt =====
-- The data of the tests: one authorized purchase and the provider that is to be paid.
use Prim.Native.String.{len, ◌++◌}
use pactra.Base.{ℕ, zero, suc, ◌==◌, false, if◌then◌else◌, none, some, [], ◌∷◌, String}
use pactra.Domain.{allow, authorized}
use pactra.Kernel.Capability.{CapabilitySet, Capability, payment_executor}
use pactra.Kernel.Transaction.{Scalar, flag, int, str, null, Crypto, BoundTransaction}
use pactra.Kernel.Approval.{policy_auto}
use pactra.Kernel.Authorization.Rows.{AuthorizationRow, active, consumed, Store}
use pactra.Payment.State.{queued, ProviderPaymentStatus}
use pactra.Payment.Rows.{
  PaymentIntentRow, OutboxEventRow, OutboxStatus, OutboxEventType, PaymentRequest, ProviderPayment,
  answer, PaymentProvider,
}
use pactra.Payment.Executor.Session.{Session}

-- Toy texts and digests: a number is written in unary, and a digest is a length.
abbrev pub unary : ℕ → String
unary zero = ""
unary (suc k) = "1" ++ unary k

abbrev pub written : Scalar → String
written (flag x) = if x then "true" else "false"
written (int k) = unary k
written (str x) = "\"" ++ unary x ++ "\""
written null = "null"

abbrev pub crypto : Crypto
crypto = record {
  sha256 = len;
  dumps = written;
  strftime = λ m. m;
  load_public_key = λ cs. some 7;
  verifies = λ key signature m. key == 7;
  prefix16 = λ t. t;
  approver_key_id = 8;
  approver_public_key = none;
}

abbrev pub transaction : BoundTransaction
transaction = record {
  merchant_id = 21;
  product_id = 22;
  quantity = 1;
  amount_inr = 400;
  currency = 23;
  policy_version = 24;
  offer_version = 25;
  expires_at = 900;
  nonce = 26;
}

-- The authorization of mission 5 with the identifier 11, issued at the instant 100.
abbrev pub active_row : AuthorizationRow
active_row = record {
  authorization_id = 11;
  mission_id = 5;
  transaction_digest = 1655;
  nonce = 26;
  binding_version = 1;
  policy_version = 24;
  offer_version = 25;
  approval_scheme = policy_auto;
  signing_key_id = none;
  approval_signature = none;
  status = active;
  issued_at = 100;
  expires_at = 900;
  consumed_at = none;
  bound_merchant_id = 21;
  bound_product_id = 22;
  bound_quantity = 1;
  bound_amount_inr = 400;
  bound_currency = 23;
}

abbrev pub spent_row : AuthorizationRow
spent_row = record active_row { status = consumed; consumed_at = some 200 }

abbrev pub store_of : AuthorizationRow → Store
store_of row = record {
  authorizations = row ∷ [];
  decisions =
      record { mission_id = 5; policy_version = 24; decision = allow; created_at = 90 } ∷ [];
  audit = [];
}

abbrev pub intent : PaymentIntentRow
intent = record {
  id = 31;
  mission_id = 5;
  authorization_id = 11;
  transaction_digest = active_row.transaction_digest;
  idempotency_key = 32;
  request_fingerprint = 33;
  amount_inr = 400;
  currency = 23;
  merchant_id = 21;
  provider = 41;
  provider_payment_id = none;
  provider_order_id = none;
  provider_transaction_id = none;
  provider_receipt = none;
  provider_status = none;
  provider_attempts = none;
  provider_create_fenced_at = none;
  provider_ambiguity_observed_at = none;
  state = queued;
  attempts = 0;
  last_reason_code = none;
}

abbrev pub event : OutboxEventRow
event = record {
  id = 51;
  payment_intent_id = 31;
  event_type = OutboxEventType.payment_create_requested;
  payload = [];
  status = OutboxStatus.pending;
  attempts = 0;
  max_attempts = 8;
  available_at = 300;
  created_at = 290;
  claimed_by = none;
  last_error = none;
  processed_at = none;
}

abbrev pub session_of : PaymentIntentRow → Session
session_of row = record {
  store = store_of spent_row;
  intent = row;
  event = event;
  mission = some authorized;
  outbox = [];
  next_uuid = 60;
  calls = [];
}

abbrev pub payment_for : PaymentRequest → ProviderPayment
payment_for request = record {
  provider = 41;
  provider_payment_id = 71;
  status = ProviderPaymentStatus.succeeded;
  amount_inr = request.amount_inr;
  currency = request.currency;
  idempotency_key = some request.idempotency_key;
  provider_order_id = none;
  provider_transaction_id = none;
  provider_receipt = none;
  provider_status = none;
  provider_attempts = none;
  idempotent_replay = false;
}

-- A provider that knows no payment and creates what it is asked to create.
abbrev pub provider : PaymentProvider
provider = record {
  name = 41;
  create_retries_are_idempotent = false;
  create_payment = λ request. answer (payment_for request);
  get_payment = λ reference key. answer none;
}

abbrev pub executor : CapabilitySet
executor = record {
  principal = payment_executor;
  allow = Capability.payment_execute ∷ Capability.payment_propose ∷ [];
  deny =
      Capability.merchant_modify ∷ Capability.authorization_issue ∷ Capability.refund_execute
      ∷ Capability.policy_modify ∷ [];
  limits = [];
}
