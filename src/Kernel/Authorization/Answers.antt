-- ===== src/Kernel/Authorization/Answers.antt =====
-- What an activation and a revocation answer (services/security_kernel/authorization.py).
use pactra.Base.{
  Text, Moment, ◌≤◌, ◌≡◌, inl, inr, Bool, true, not, Option, none, some, arith, ◌==◌, find, count,
  update_where, if◌then◌else◌, Bool-cases, Option-cases,
}
use pactra.Base.Tables.{hits, updated, count-find, find-update_where}
use pactra.Domain.{Failure, EventType, Payload}
use pactra.Action.{Result, ok, raised, Action, pure, or_raise, when, ◌>>=◌, ◌>>◌}
use pactra.Kernel.Transaction.{Crypto, BoundTransaction}
use pactra.Kernel.Authorization.Rows.{
  AuthorizationRow, Store, has_id, apply_transition, reload, audit,
}
use pactra.Kernel.Authorization.Classify.{classify_and_raise}
use pactra.Kernel.Authorization.Refusals.{refusal, classify_and_raise-eq}

-- What a conditional update of the row with the key answers.
abbrev pub answer :
    Crypto
    → Option BoundTransaction
    → Moment
    → (AuthorizationRow → Bool)
    → (AuthorizationRow → AuthorizationRow)
    → Option AuthorizationRow
    → Result AuthorizationRow
answer c tx now q f none = raised Failure.not_found
answer c tx now q f (some row) = if q row then ok (f row) else raised (refusal c tx now (some row))

-- The shape of every transition: the conditional update, the classification of a refusal, the row
-- that is read back, and its audit event.
unfoldable pub transition :
    Crypto
    → Text
    → Option BoundTransaction
    → Moment
    → (AuthorizationRow → Bool)
    → (AuthorizationRow → AuthorizationRow)
    → EventType
    → (AuthorizationRow → Payload)
    → Action Store AuthorizationRow
transition c k tx now q f event_type payload = do
  changed ← apply_transition q f
  when (not (changed == 1)) (classify_and_raise c k tx now)
  found ← reload k
  row ← or_raise found Failure.not_found
  audit row.mission_id event_type (payload row)
  pure row

module _ (c : Crypto) (k : Text) (now : Moment) (s : Store)
    (keyed : count (has_id k) s.authorizations ≤ 1) where
  module _ (tx : Option BoundTransaction) (q : AuthorizationRow → Bool)
      (f : AuthorizationRow → AuthorizationRow) (event_type : EventType)
      (payload : AuthorizationRow → Payload)
      (narrow : (x : AuthorizationRow) → q x ≡ true → has_id k x ≡ true)
      (keeps : (x : AuthorizationRow) → has_id k (f x) ≡ has_id k x) where
    changes-eq :
        {o : Option AuthorizationRow}
        → find (has_id k) s.authorizations ≡ o
        → count q s.authorizations ≡ hits q o
    changes-eq e = rw (← e) (count-find (has_id k) q narrow s.authorizations keyed)

    found_after :
        {o : Option AuthorizationRow}
        → find (has_id k) s.authorizations ≡ o
        → find (has_id k) (update_where q f s.authorizations) ≡ updated q f o
    found_after e = rw (← e) (find-update_where (has_id k) q f keeps s.authorizations)

    abbrev after : Store
    after = record s { authorizations = update_where q f s.authorizations }

    pub transition-answer :
        (transition c k tx now q f event_type payload s).0
        ≡ answer c tx now q f (find (has_id k) s.authorizations)
    unfolding transition ◌>>=◌ apply_transition reload audit
    transition-answer = elim (Option-cases (find (has_id k) s.authorizations)) [
      | inl absent ↦
          rw (absent, changes-eq absent)
            (ground (arith, classify_and_raise-eq c k tx now after, found_after absent))
      | inr (row, present) ↦ elim (Bool-cases (q row)) [
        | inl hit ↦ rw (present, changes-eq present, hit) (ground (arith, found_after present))
        | inr miss ↦
            rw (present, changes-eq present, miss)
              (ground (arith, classify_and_raise-eq c k tx now after, found_after present))
      ]
    ]
