-- ===== src/Kernel/Authorization/Binding.antt =====
-- Authorizations and the transactions they were issued for (packages/schemas/transaction.py).
use mathlib.Core.Path.{subst}
use pactra.Domain.{Failure}
use pactra.Base.{
  ⊤, ◌&&◌, List, leb, ◌≤◌, ◌≡◌, sym, ◌∙◌, Bool, true, false, not, some, arith, Text, Moment, find,
  count,
}
use pactra.Action.{
  ok, ◌>>=◌, >>=-rest, lift-ok, pure-ok, when-raise-ok, raise_if, raise_if-ok, raise_if_ne-ok,
}
use pactra.Kernel.Transaction.{Crypto, BoundTransaction, digest, binding_version}
use pactra.Kernel.Canonical.{Readable}
use pactra.Kernel.Digest.{message, Distinguishes, digest-binds}
use pactra.Kernel.Authorization.Rows.{
  AuthorizationRow, AuthorizationStatus, active, status_eq, PolicyDecisionRow, Store, has_id,
  bound_of, digests_match,
}
use pactra.Kernel.Authorization.Lifecycle.{consume_authorization}
use pactra.Kernel.Authorization.Proof.{
  scheme_agrees, expected_scheme, require_policy_scheme, verify_authorization_for_payment,
  rebuild_bound_transaction,
}
use pactra.Kernel.Authorization.Ruling.{Ruled, expected_scheme-Ruled}
use pactra.Kernel.Authorization.Origin.{Originates, verify_origin-Originates}
use pactra.Kernel.Authorization.Verdict.{consume_verdict, consume_authorization-verdict}

verdict-binds :
    (c : Crypto) (tx : BoundTransaction) (now : Moment) (row row' : AuthorizationRow)
    → consume_verdict c tx now (some row) ≡ ok row'
    → row.transaction_digest ≡ digest c tx
verdict-binds c tx now row row' h = ground arith

-- If the key stands at most once in the table, on a row whose digest is that of the transaction
-- it was issued for, and SHA-256 does not collide on that transaction and the presented one, then
-- a consumption that returns was presented the very transaction that was issued.
pub consume_authorization-binds :
    (c : Crypto) (k : Text) (issued presented : BoundTransaction) (now : Moment) (s : Store)
    (row row' : AuthorizationRow)
    → count (has_id k) s.authorizations ≤ 1
    → find (has_id k) s.authorizations ≡ some row
    → row.transaction_digest ≡ digest c issued
    → Readable c
    → Distinguishes c (message c issued) (message c presented)
    → (consume_authorization c k presented now s).0 ≡ ok row'
    → presented ≡ issued
consume_authorization-binds c k issued presented now s row row' keyed there of readable apart done =
    let verdict = consume_authorization-verdict c k now s keyed presented in
    let same = verdict-binds c presented now row row' (rw (verdict, there) at done) in
    sym (digest-binds c issued presented readable apart (sym of ∙ same))

-- What a verified authorization has shown.
pub record Verified (c : Crypto) (row : AuthorizationRow) (expected : AuthorizationStatus)
    (now : Moment) (decisions : List PolicyDecisionRow) (tx : BoundTransaction) : Type 0 where
  pub terms : tx ≡ bound_of row
  pub unaltered : digests_match c row.transaction_digest tx ≡ true
  pub current : row.binding_version ≡ binding_version
  pub expected_status : status_eq row.status expected ≡ true
  pub alive : status_eq expected active && leb row.expires_at now ≡ false
  pub policy : Ruled decisions row
  pub origin : Originates c row

require_policy_scheme-ok :
    (row : AuthorizationRow) (s : Store) {u : ⊤}
    → (require_policy_scheme row s).0 ≡ ok u
    → scheme_agrees row (expected_scheme s.decisions row) ≡ true
unfolding require_policy_scheme ◌>>=◌
require_policy_scheme-ok row s h = ground arith

-- The rebuilding only reads.
pub rebuild_reads :
    (c : Crypto) (row : AuthorizationRow) (s : Store) → (rebuild_bound_transaction c row s).1 ≡ s
unfolding rebuild_bound_transaction ◌>>=◌
rebuild_reads c row s = ground arith

pub raise_if-reads : (b : Bool) (e : Failure) (s : Store) → (raise_if b e s).1 ≡ s
unfolding ◌>>=◌
raise_if-reads b e s = ground arith

passed : (b : Bool) → not b ≡ false → b ≡ true
passed b h = ground arith

-- A verification before payment that returns: the terms that it returns are the row's own columns,
-- their digest is the row's, the binding version is current, the row has the expected status, an
-- ACTIVE authorization has not expired, the approval scheme is the one that the latest policy
-- decision for the mission and policy version asks for, and the proof of the row's origin
-- verifies.
pub verify_authorization_for_payment-Verified :
    (c : Crypto) (row : AuthorizationRow) (expected : AuthorizationStatus) (now : Moment)
    (s : Store) {tx : BoundTransaction}
    → (verify_authorization_for_payment c row expected now s).0 ≡ ok tx
    → Verified c row expected now s.decisions tx
unfolding verify_authorization_for_payment rebuild_bound_transaction
verify_authorization_for_payment-Verified c row expected now s h =
    let (tx1, r1, h1) = >>=-rest _ _ s h in
    let (_, r2, h2) = >>=-rest _ _ _ h1 in
    let (_, r3, h3) = >>=-rest _ _ _ h2 in
    let (_, r4, h4) = >>=-rest _ _ _ h3 in
    let (_, r5, h5) = >>=-rest _ _ _ h4 in
    let (_, r6, h6) = >>=-rest _ _ _ h5 in
    let (_, r7, h7) = >>=-rest _ _ s r1 in
    let q3 = when-raise-ok _ _ _ _ r3 in
    let q4 = when-raise-ok _ _ _ _ r4 in
    let rebuilt : bound_of row ≡ tx1 = pure-ok _ _ h7 in
    let same = rebuilt ∙ pure-ok _ _ h6 in
    record {
      terms = sym same;
      unaltered = rw (← same) (passed _ (raise_if-ok _ _ _ r7));
      current = raise_if_ne-ok _ _ _ _ r2;
      expected_status = passed _ q3.0;
      alive = q4.0;
      policy = expected_scheme-Ruled s.decisions row (
          subst (λ (t : Store). scheme_agrees row (expected_scheme t.decisions row) ≡ true)
            (q4.1 ∙ q3.1 ∙ raise_if-reads _ _ _ ∙ rebuild_reads c row s)
            (require_policy_scheme-ok _ _ r5));
      origin = verify_origin-Originates c row (lift-ok _ _ r6);
    }
