-- ===== src/Kernel/Authorization/Classify.antt =====
-- `expire_if_stale` and `_classify_and_raise` of services/security_kernel/authorization.py.
use pactra.Base.{
  ⊤, Text, Moment, Bool, true, false, not, ◌&&◌, ◌||◌, Option, none, some, [], ◌∷◌, ◌==◌, leb,
  if◌then◌else◌,
}
use pactra.Domain.{
  Failure, ReasonCode, authorization_expired, authorization_replay_detected,
  transaction_binding_failure, Value, opt_moment,
}
use pactra.Action.{Action, pure, raise, or_raise, ◌>>=◌, ◌>>◌}
use pactra.Kernel.Transaction.{Crypto, BoundTransaction, digest}
use pactra.Kernel.Authorization.Rows.{
  AuthorizationRow, pending, active, consumed, expired, status_eq, status_word, Store, has_id,
  apply_transition, reload, audit, digests_match,
}

abbrev pub is_live : AuthorizationRow → Bool
is_live row = status_eq row.status pending || status_eq row.status active

unfoldable pub expiring : Text → Moment → AuthorizationRow → Bool
expiring authorization_id moment row =
    has_id authorization_id row && is_live row && leb row.expires_at moment

abbrev pub demote : AuthorizationRow → AuthorizationRow
demote row = record row { status = expired }

unfoldable pub record_expiry : Option AuthorizationRow → Action Store Bool
record_expiry none = pure false
record_expiry (some row) = do
  audit row.mission_id authorization_expired (
      ("authorization_id", Value.text row.authorization_id)
      ∷ ("status", Value.word (status_word row.status))
      ∷ ("expires_at", Value.moment row.expires_at)
      ∷ [])
  pure true

unfoldable pub expire_if_stale : Text → Moment → Action Store Bool
unfolding expiring record_expiry
expire_if_stale authorization_id moment = do
  changed ← apply_transition (expiring authorization_id moment) demote
  if not (changed == 1) then pure false else (reload authorization_id >>= record_expiry)

unfoldable pub raise_replay : Text → AuthorizationRow → Action Store ⊤
raise_replay authorization_id row = do
  audit row.mission_id authorization_replay_detected (
      ("authorization_id", Value.text row.authorization_id)
      ∷ ("status", Value.word (status_word row.status))
      ∷ ("reason_code", Value.reason ReasonCode.authorization_replay_detected)
      ∷ ("consumed_at", opt_moment row.consumed_at)
      ∷ [])
  raise Failure.replay_detected

unfoldable pub raise_binding : Crypto → AuthorizationRow → BoundTransaction → Action Store ⊤
raise_binding c row tx = do
  audit row.mission_id transaction_binding_failure (
      ("authorization_id", Value.text row.authorization_id)
      ∷ ("status", Value.word (status_word row.status))
      ∷ ("reason_code", Value.reason ReasonCode.transaction_binding_failure)
      ∷ ("bound_digest_prefix", Value.prefix row.transaction_digest)
      ∷ ("presented_digest_prefix", Value.prefix (digest c tx))
      ∷ [])
  raise Failure.binding_failure

unfoldable pub raise_time_or_state : Text → Moment → AuthorizationRow → Action Store ⊤
raise_time_or_state authorization_id now row =
    if leb row.expires_at now
    then (expire_if_stale authorization_id now >> raise Failure.expired)
    else raise Failure.not_active

-- The transaction is given only where a transaction was presented.
unfoldable pub raise_unconsumed :
    Crypto → Text → Option BoundTransaction → Moment → AuthorizationRow → Action Store ⊤
unfolding raise_binding raise_time_or_state
raise_unconsumed c authorization_id none now row = raise_time_or_state authorization_id now row
raise_unconsumed c authorization_id (some tx) now row =
    if not (digests_match c row.transaction_digest tx)
    then raise_binding c row tx
    else raise_time_or_state authorization_id now row

unfoldable pub classify_and_raise :
    Crypto → Text → Option BoundTransaction → Moment → Action Store ⊤
unfolding raise_replay raise_unconsumed expire_if_stale
classify_and_raise c authorization_id presented now = do
  found ← reload authorization_id
  row ← or_raise found Failure.not_found
  if status_eq row.status consumed
      then raise_replay authorization_id row
      else raise_unconsumed c authorization_id presented now row
