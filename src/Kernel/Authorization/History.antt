-- ===== src/Kernel/Authorization/History.antt =====
-- Any sequence of requests to the authorization service, in the order the database serialises
-- them, each with the instant at which it runs.
use pactra.Base.{
  Text, Moment, ◌≤◌, ◌≡◌, true, Option, none, some, List, [], ◌∷◌, arith, find, count,
}
use pactra.Domain.{Failure}
use pactra.Action.{ok, raised}
use pactra.Kernel.Capability.{CapabilitySet}
use pactra.Kernel.Transaction.{Crypto, BoundTransaction, Characters}
use pactra.Kernel.Approval.{ApprovalScheme}
use pactra.Kernel.Authorization.Rows.{
  AuthorizationRow, AuthorizationStatus, consumed, PolicyDecisionRow, Store, has_id,
}
use pactra.Kernel.Authorization.Classify.{expire_if_stale}
use pactra.Kernel.Authorization.Lifecycle.{
  issue_authorization, activate_authorization, consume_authorization, revoke_authorization,
}
use pactra.Kernel.Authorization.Proof.{
  approve_authorization_with_signature, verify_authorization_for_payment,
}
use pactra.Kernel.Authorization.Evolution.{AllSound, find-Evolves, is_terminal}
use pactra.Kernel.Authorization.Operations.{Grows, Grows-IsPreorder, expire_if_stale-Grows}
use pactra.Kernel.Authorization.Transitions.{
  issue_authorization-Grows, activate_authorization-Grows, consume_authorization-Grows,
  revoke_authorization-Grows, verify_authorization_for_payment-Grows,
}
use pactra.Kernel.Authorization.Approving.{approve_authorization_with_signature-Grows}
use pactra.Kernel.Authorization.Verdict.{
  consume_verdict, consume_authorization-verdict, consume_authorization-row,
}

pub data Request : Type 0 where
  issue : Text → CapabilitySet → Text → BoundTransaction → ApprovalScheme → Moment → Request
  activate : Text → Moment → Request
  approve : Text → Text → Text → Characters → Moment → Request
  verify : AuthorizationRow → AuthorizationStatus → Moment → Request
  consume : Text → BoundTransaction → Moment → Request
  revoke : Text → Text → Moment → Request
  expire : Text → Moment → Request

-- The state that a request leaves, whether it returns or raises.
unfoldable pub perform : Crypto → Request → Store → Store
perform c (issue new_id caps mission tx scheme now) s =
    (issue_authorization c new_id caps mission tx scheme now s).1
perform c (activate k now) s = (activate_authorization c k now s).1
perform c (approve mission k key sig now) s =
    (approve_authorization_with_signature c mission k key sig now s).1
perform c (verify row expected now) s = (verify_authorization_for_payment c row expected now s).1
perform c (consume k tx now) s = (consume_authorization c k tx now s).1
perform c (revoke k reason now) s = (revoke_authorization c k reason now s).1
perform c (expire k now) s = (expire_if_stale k now s).1

unfoldable pub run : Crypto → List Request → Store → Store
run c [] s = s
run c (r ∷ rs) s = run c rs (perform c r s)

module _ (c : Crypto) where
  perform-Grows : (r : Request) (s : Store) → Grows c s (perform c r s)
  unfolding perform
  perform-Grows (issue i caps m tx k now) s = (issue_authorization-Grows c i caps m tx k now).at s
  perform-Grows (activate k now) s = (activate_authorization-Grows c k now).at s
  perform-Grows (approve m k key sig now) s =
      (approve_authorization_with_signature-Grows c m k key sig now).at s
  perform-Grows (verify row expected now) s =
      (verify_authorization_for_payment-Grows c row expected now).at s
  perform-Grows (consume k tx now) s = (consume_authorization-Grows c k tx now).at s
  perform-Grows (revoke k reason now) s = (revoke_authorization-Grows c k reason now).at s
  perform-Grows (expire k now) s = (expire_if_stale-Grows c k now).at s

  -- Through any requests, in any order, returning or raising: every row keeps the columns that
  -- its issuance wrote, a CONSUMED, EXPIRED or REVOKED row keeps all its columns, a row that
  -- passes the validator goes on passing it and one that is proven stays so, a row that is added
  -- is valid and proven, no row disappears, the policy decisions stay, and the audit log only
  -- grows at its end.
  pub run-Grows : (rs : List Request) (s : Store) → Grows c s (run c rs s)
  unfolding run
  run-Grows [] s = (Grows-IsPreorder c).reflexive s
  run-Grows (r ∷ rs) s =
      (Grows-IsPreorder c).transitive s (perform c r s) (run c rs (perform c r s))
        (perform-Grows r s) (run-Grows rs (perform c r s))

  -- After any requests to an empty table of authorizations, whatever the policy decisions, every
  -- row passes the validator of Authorization, and every ACTIVE or CONSUMED row of the scheme
  -- USER_ED25519 carries a key and a signature that verify for the challenge of that very row.
  pub run-AllSound :
      (rs : List Request) (ds : List PolicyDecisionRow)
      → AllSound c
          (run c rs (record { authorizations = []; decisions = ds; audit = [] })).authorizations
  run-AllSound rs ds =
      (run-Grows rs (record { authorizations = []; decisions = ds; audit = [] })).rows

  -- A row that is consumed stays as it is through any requests.
  consumed_stays :
      (rs : List Request) (s : Store) (k : Text) (row : AuthorizationRow)
      → find (has_id k) s.authorizations ≡ some row
      → is_terminal row.status ≡ true
      → find (has_id k) (run c rs s).authorizations ≡ some row
  consumed_stays rs s k row h t =
      let (row', found, follows) =
        find-Evolves c k s.authorizations (run c rs s).authorizations row (run-Grows rs s).rows h in
      cc (found, follows.final t)

  pub verdict-consumed :
      (tx : BoundTransaction) (now : Moment) (o : Option AuthorizationRow) (row : AuthorizationRow)
      → consume_verdict c tx now o ≡ ok row
      → row.status ≡ consumed
  verdict-consumed tx now none row h = cc
  verdict-consumed tx now (some r) row h = ground arith

  replayed :
      (tx : BoundTransaction) (now : Moment) (row : AuthorizationRow)
      → row.status ≡ consumed
      → consume_verdict c tx now (some row) ≡ raised Failure.replay_detected
  replayed tx now row h = ground arith

  -- If the key stands at most once in the table, and a consumption of it has returned, then after
  -- any further requests to the service, if the key still stands at most once, every further
  -- consumption of it, for any transaction and at any instant, raises the replay failure.
  pub consume_once :
      (k : Text) (tx : BoundTransaction) (now : Moment) (s : Store) (row : AuthorizationRow)
      → count (has_id k) s.authorizations ≤ 1
      → (consume_authorization c k tx now s).0 ≡ ok row
      → (rs : List Request) (tx' : BoundTransaction) (later : Moment)
      → count (has_id k) (run c rs (consume_authorization c k tx now s).1).authorizations ≤ 1
      → (consume_authorization c k tx' later (run c rs (consume_authorization c k tx now s).1)).0
        ≡ raised Failure.replay_detected
  consume_once k tx now s row keyed done rs tx' later keyed' =
      let spent : row.status ≡ consumed =
        verdict-consumed tx now (find (has_id k) s.authorizations) row
          (rw (consume_authorization-verdict c k now s keyed tx) at done) in
      let t = run c rs (consume_authorization c k tx now s).1 in
      let still : find (has_id k) t.authorizations ≡ some row =
        consumed_stays rs (consume_authorization c k tx now s).1 k row
          (consume_authorization-row c k now s keyed tx row done) (rw spent) in
      rw (consume_authorization-verdict c k later t keyed' tx', still)
        (replayed tx' later row spent)
