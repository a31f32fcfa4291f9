-- ===== src/Kernel/Authorization/Transitions.antt =====
-- Issuing, activating, consuming, revoking and verifying.
use pactra.Base.{Text, Moment, ◌≡◌, refl, true, [], ◌∷◌, arith}
use mathlib.Core.List.{append-nil}
use pactra.Action.Follows.{Follows, Follows-bind, follows_rules}
use pactra.Kernel.Capability.{CapabilitySet, Capability, enforce_registered}
use pactra.Kernel.Transaction.{Crypto, BoundTransaction}
use pactra.Kernel.Approval.{ApprovalScheme}
use pactra.Kernel.Authorization.Rows.{AuthorizationRow, AuthorizationStatus}
use pactra.Kernel.Authorization.Lifecycle.{
  issued_row, add_row, issue_authorization, activatable, activated, activate_authorization,
  consumable, consumed_row, consume_authorization, revocable, revoked_row, revoke_authorization,
}
use pactra.Kernel.Authorization.Proof.{verify_supplied_user_proof, verify_authorization_for_payment}
use pactra.Kernel.Authorization.Evolution.{Successor, Evolves-append, validates, IsSound}
use pactra.Kernel.Authorization.Operations.{
  Grows, Grows-IsPreorder, audit-Grows, reload-Grows, apply_transition-Grows, expire_if_stale-Grows,
  classify_and_raise-Grows,
}

module _ (c : Crypto) where
  activated-Successor :
      (k : Text) (now : Moment) (x : AuthorizationRow)
      → activatable k now x ≡ true
      → Successor c x (activated x)
  unfolding validates
  activated-Successor k now x h = record {
    same = refl;
    final = λ t. absurd (ground arith);
    valid = λ v. ground arith;
    proven = λ old p u. absurd (ground arith);
  }

  pub activate_authorization-Grows :
      (k : Text) (now : Moment) → Follows (Grows c) (activate_authorization c k now)
  unfolding activate_authorization
  activate_authorization-Grows k now =
      Follows-bind (Grows-IsPreorder c) _ _
        (apply_transition-Grows c (activatable k now) activated (activated-Successor k now))
        λ n.
          search
            (
              follows_rules,
              Grows-IsPreorder c,
              audit-Grows c,
              reload-Grows c,
              classify_and_raise-Grows c,
            )
            depth 8

  consumed-Successor :
      (k : Text) (tx : BoundTransaction) (now : Moment) (x : AuthorizationRow)
      → consumable c k tx now x ≡ true
      → Successor c x (consumed_row now x)
  unfolding validates verify_supplied_user_proof
  consumed-Successor k tx now x h = record {
    same = refl;
    final = λ t. absurd (ground arith);
    valid = λ v. ground arith;
    proven = λ old p u. old p (ground arith);
  }

  pub consume_authorization-Grows :
      (k : Text) (tx : BoundTransaction) (now : Moment)
      → Follows (Grows c) (consume_authorization c k tx now)
  unfolding consume_authorization
  consume_authorization-Grows k tx now =
      Follows-bind (Grows-IsPreorder c) _ _
        (apply_transition-Grows c (consumable c k tx now) (consumed_row now)
          (consumed-Successor k tx now))
        λ n.
          search
            (
              follows_rules,
              Grows-IsPreorder c,
              audit-Grows c,
              reload-Grows c,
              classify_and_raise-Grows c,
            )
            depth 8

  revoked-Successor :
      (k : Text) (x : AuthorizationRow) → revocable k x ≡ true → Successor c x (revoked_row x)
  unfolding validates
  revoked-Successor k x h = record {
    same = refl;
    final = λ t. absurd (ground arith);
    valid = λ v. ground arith;
    proven = λ old p u. absurd (ground arith);
  }

  pub revoke_authorization-Grows :
      (k reason : Text) (now : Moment) → Follows (Grows c) (revoke_authorization c k reason now)
  unfolding revoke_authorization
  revoke_authorization-Grows k reason now =
      Follows-bind (Grows-IsPreorder c) _ _
        (apply_transition-Grows c (revocable k) revoked_row (revoked-Successor k))
        λ n.
          search
            (
              follows_rules,
              Grows-IsPreorder c,
              audit-Grows c,
              reload-Grows c,
              classify_and_raise-Grows c,
            )
            depth 8

  issued_row-IsSound :
      (new_id mission : Text) (tx : BoundTransaction) (scheme : ApprovalScheme) (now : Moment)
      → IsSound c (issued_row c new_id mission tx scheme now)
  unfolding issued_row validates
  issued_row-IsSound new_id mission tx scheme now = (ground arith, λ p u. cc)

  add_row-Grows : (row : AuthorizationRow) → IsSound c row → Follows (Grows c) (add_row row)
  unfolding add_row
  add_row-Grows row sound = record {
    at = λ s. record {
      rows = Evolves-append c s.authorizations (row ∷ []) (sound, tt);
      decided = refl;
      logged = ([], simp append-nil);
    };
  }

  enforce_registered-Grows :
      (caps : CapabilitySet) (k : Capability) → Follows (Grows c) (enforce_registered caps k)
  unfolding enforce_registered
  enforce_registered-Grows caps k = search (follows_rules, Grows-IsPreorder c)

  pub issue_authorization-Grows :
      (new_id : Text) (caps : CapabilitySet) (mission : Text) (tx : BoundTransaction)
      (scheme : ApprovalScheme) (now : Moment)
      → Follows (Grows c) (issue_authorization c new_id caps mission tx scheme now)
  unfolding issue_authorization
  issue_authorization-Grows new_id caps mission tx scheme now =
      search
        (
          follows_rules,
          Grows-IsPreorder c,
          enforce_registered-Grows,
          add_row-Grows,
          issued_row-IsSound,
          audit-Grows c,
        )
        depth 10

  pub verify_authorization_for_payment-Grows :
      (row : AuthorizationRow) (expected : AuthorizationStatus) (now : Moment)
      → Follows (Grows c) (verify_authorization_for_payment c row expected now)
  unfolding verify_authorization_for_payment
  verify_authorization_for_payment-Grows row expected now =
      search
        (follows_rules, Grows-IsPreorder c, expire_if_stale-Grows c, classify_and_raise-Grows c)
        depth 12
