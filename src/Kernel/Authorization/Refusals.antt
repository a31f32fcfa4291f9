-- ===== src/Kernel/Authorization/Refusals.antt =====
-- Why a transition is refused, as a function of the row that it finds
-- (services/security_kernel/authorization.py).
use pactra.Base.{
  Text, Moment, ◌≡◌, refl, inl, inr, Bool, true, false, not, Option, none, some, arith, ◌==◌, leb,
  find, count, if◌then◌else◌, Bool-cases, Option-cases,
}
use pactra.Domain.{Failure}
use pactra.Action.{ok, raised, ◌>>=◌}
use pactra.Kernel.Transaction.{Crypto, BoundTransaction, digest}
use pactra.Kernel.Authorization.Rows.{
  AuthorizationRow, consumed, status_eq, Store, has_id, apply_transition, reload, audit,
  digests_match,
}
use pactra.Kernel.Authorization.Classify.{
  expiring, record_expiry, expire_if_stale, raise_time_or_state, raise_unconsumed,
  classify_and_raise,
}

-- The severity order of the refusals: replay, binding, expiry, state.
abbrev pub time_or_state : Moment → AuthorizationRow → Failure
time_or_state now row = if leb row.expires_at now then Failure.expired else Failure.not_active

abbrev pub unconsumed_reason :
    Crypto → Option BoundTransaction → Moment → AuthorizationRow → Failure
unconsumed_reason c none now row = time_or_state now row
unconsumed_reason c (some tx) now row =
    if not (row.transaction_digest == digest c tx)
    then Failure.binding_failure
    else time_or_state now row

abbrev pub refusal : Crypto → Option BoundTransaction → Moment → Option AuthorizationRow → Failure
refusal c presented now none = Failure.not_found
refusal c presented now (some row) =
    if status_eq row.status consumed
    then Failure.replay_detected
    else unconsumed_reason c presented now row

record_expiry-ok :
    (row : Option AuthorizationRow) (s : Store) → (b : Bool) × ((record_expiry row s).0 ≡ ok b)
unfolding record_expiry audit ◌>>=◌
record_expiry-ok none s = (false, refl)
record_expiry-ok (some row) s = (true, refl)

expire_if_stale-ok :
    (k : Text) (now : Moment) (s : Store) → (b : Bool) × ((expire_if_stale k now s).0 ≡ ok b)
unfolding expire_if_stale ◌>>=◌ reload apply_transition
expire_if_stale-ok k now s = elim (Bool-cases (count (expiring k now) s.authorizations == 1)) [
  | inl one ↦ rw one (record_expiry-ok _ _)
  | inr other ↦ (false, rw other)
]

raise_time_or_state-eq :
    (k : Text) (now : Moment) (row : AuthorizationRow) (s : Store)
    → (raise_time_or_state k now row s).0 ≡ raised (time_or_state now row)
unfolding raise_time_or_state ◌>>=◌
raise_time_or_state-eq k now row s = ground (arith, expire_if_stale-ok k now s)

raise_unconsumed-eq :
    (c : Crypto) (k : Text) (tx : Option BoundTransaction) (now : Moment) (row : AuthorizationRow)
    (s : Store)
    → (raise_unconsumed c k tx now row s).0 ≡ raised (unconsumed_reason c tx now row)
unfolding raise_unconsumed ◌>>=◌ audit digests_match
raise_unconsumed-eq c k none now row s = raise_time_or_state-eq k now row s
raise_unconsumed-eq c k (some tx) now row s = ground (arith, raise_time_or_state-eq k now row s)

-- The classification of a refused transition always raises, and the failure depends on the row
-- with the key, the presented transaction and the instant alone: no row, a replay if it is
-- CONSUMED, a binding failure if a transaction with another digest was presented, expiry, and
-- else a wrong status.
pub classify_and_raise-eq :
    (c : Crypto) (k : Text) (tx : Option BoundTransaction) (now : Moment) (s : Store)
    → (classify_and_raise c k tx now s).0
      ≡ raised (refusal c tx now (find (has_id k) s.authorizations))
unfolding classify_and_raise ◌>>=◌ reload audit
classify_and_raise-eq c k tx now s = elim (Option-cases (find (has_id k) s.authorizations)) [
  | inl absent ↦ rw absent
  | inr (row, present) ↦ rw present (elim (Bool-cases (status_eq row.status consumed)) [
    | inl again ↦ rw again
    | inr fresh ↦ rw fresh (raise_unconsumed-eq c k tx now row s)
  ])
]
