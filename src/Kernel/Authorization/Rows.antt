-- ===== src/Kernel/Authorization/Rows.antt =====
-- The rows that the authorization service reads and writes, and its conditional update
-- (services/security_kernel/authorization.py, apps/api/db/models.py).
use pactra.Base.{
  ⊤, ℕ, Text, Moment, Bool, Option, List, [], ◌∷◌, ◌++◌, String, ◌==◌, find, count, update_where,
}
use pactra.Domain.{PolicyOutcome, EventType, AuditEntry, Payload}
use pactra.Action.{Action, gets, modify, ok, ◌>>=◌}
use pactra.Kernel.Transaction.{Crypto, BoundTransaction, Characters, digest}
use pactra.Kernel.Approval.{ApprovalScheme}

pub data AuthorizationStatus : Type 0 where
  pending active consumed expired revoked : AuthorizationStatus

abbrev pub status_index : AuthorizationStatus → ℕ
status_index pending = 0
status_index active = 1
status_index consumed = 2
status_index expired = 3
status_index revoked = 4

abbrev pub status_eq : AuthorizationStatus → AuthorizationStatus → Bool
status_eq a b = status_index a == status_index b

abbrev pub status_word : AuthorizationStatus → String
status_word pending = "PENDING"
status_word active = "ACTIVE"
status_word consumed = "CONSUMED"
status_word expired = "EXPIRED"
status_word revoked = "REVOKED"

pub record AuthorizationRow : Type 0 where
  pub authorization_id : Text
  pub mission_id : Text
  pub transaction_digest : Text
  pub nonce : Text
  pub binding_version : Text
  pub policy_version : Text
  pub offer_version : Text
  pub approval_scheme : ApprovalScheme
  pub signing_key_id : Option Text
  pub approval_signature : Option Characters
  pub status : AuthorizationStatus
  pub issued_at : Moment
  pub expires_at : Moment
  pub consumed_at : Option Moment
  pub bound_merchant_id : Text
  pub bound_product_id : Text
  pub bound_quantity : ℕ
  pub bound_amount_inr : ℕ
  pub bound_currency : Text

pub record PolicyDecisionRow : Type 0 where
  pub mission_id : Text
  pub policy_version : Text
  pub decision : PolicyOutcome
  pub created_at : Moment

-- What a session of the service sees: the two tables, and the calls of `append_event` so far.
pub record Store : Type 0 where
  pub authorizations : List AuthorizationRow
  pub decisions : List PolicyDecisionRow
  pub audit : List AuditEntry

abbrev pub has_id : Text → AuthorizationRow → Bool
has_id authorization_id row = row.authorization_id == authorization_id

-- `_apply_transition`: a conditional UPDATE, which returns how many rows it changed.
unfoldable pub apply_transition :
    (AuthorizationRow → Bool) → (AuthorizationRow → AuthorizationRow) → Action Store ℕ
apply_transition where_clause values s = (
  ok (count where_clause s.authorizations),
  record s { authorizations = update_where where_clause values s.authorizations },
)

-- `_reload`, and `load_authorization`
unfoldable pub reload : Text → Action Store (Option AuthorizationRow)
unfolding ◌>>=◌
reload authorization_id = gets (λ s. find (has_id authorization_id) s.authorizations)

-- `_audit`
unfoldable pub audit : Text → EventType → Payload → Action Store ⊤
unfolding ◌>>=◌
audit mission_id event_type payload = modify λ s. record s {
  audit =
      s.audit
      ++ record {
        mission_id = mission_id;
        event_type = event_type;
        actor = "security-kernel";
        payload = payload;
      }
        ∷ [];
}

-- `digests_match` of services/security_kernel/binding.py
unfoldable pub digests_match : Crypto → Text → BoundTransaction → Bool
digests_match c expected_digest tx = expected_digest == digest c tx

-- The transaction that the columns of a row describe.
unfoldable pub bound_of : AuthorizationRow → BoundTransaction
bound_of row = record {
  merchant_id = row.bound_merchant_id;
  product_id = row.bound_product_id;
  quantity = row.bound_quantity;
  amount_inr = row.bound_amount_inr;
  currency = row.bound_currency;
  policy_version = row.policy_version;
  offer_version = row.offer_version;
  expires_at = row.expires_at;
  nonce = row.nonce;
}
