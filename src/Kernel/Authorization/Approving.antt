-- ===== src/Kernel/Authorization/Approving.antt =====
-- Approving an authorization by the user's signature.
use pactra.Base.{⊤, Text, Moment, ◌≡◌, refl, true, Option, none, some, arith, find, find-accepts}
use pactra.Domain.{Failure}
use pactra.Action.{Result, ok, raised, or_raise, lift, ◌>>=◌, or_raise-ok, raise_if_ne-ok}
use pactra.Action.Follows.{
  Follows, Follows-bind, Follows-bind_ok, Follows-when, Follows-lift, Follows-raise_if,
  Follows-or_raise, follows_rules,
}
use pactra.Kernel.Transaction.{Crypto, Characters, binding_version}
use pactra.Kernel.Authorization.Rows.{AuthorizationRow, Store, has_id, reload, audit}
use pactra.Kernel.Authorization.Proof.{
  verify_supplied_user_proof, require_policy_scheme, rebuild_bound_transaction, check_proof,
  provable, proven, approve_authorization_with_signature, audit_proof_failure, handle_refusal,
}
use pactra.Kernel.Authorization.Evolution.{Successor, validates}
use pactra.Kernel.Authorization.Operations.{
  Grows, Grows-IsPreorder, audit-Grows, reload-Grows, apply_transition-Grows,
  classify_and_raise-Grows,
}

module _ (c : Crypto) where
  -- What an approval has established of the row that it read.
  same_challenge :
      (mission k key : Text) (sig : Characters) (row x : AuthorizationRow) (now : Moment)
      → row.authorization_id ≡ k
      → row.mission_id ≡ mission
      → row.binding_version ≡ binding_version
      → provable mission k row now x ≡ true
      → verify_supplied_user_proof c row key sig ≡ ok tt
      → verify_supplied_user_proof c (proven key sig x) key sig ≡ ok tt
  unfolding verify_supplied_user_proof
  same_challenge mission k key sig row x now ids ms bs h v = ground arith

  proven-Successor :
      (mission k key : Text) (sig : Characters) (row x : AuthorizationRow) (now : Moment)
      → row.authorization_id ≡ k
      → row.mission_id ≡ mission
      → row.binding_version ≡ binding_version
      → verify_supplied_user_proof c row key sig ≡ ok tt
      → provable mission k row now x ≡ true
      → Successor c x (proven key sig x)
  unfolding validates
  proven-Successor mission k key sig row x now ids ms bs v h = record {
    same = refl;
    final = λ t. absurd (ground arith);
    valid = λ w. ground arith;
    proven =
        λ old p u. (key, sig, refl, refl, same_challenge mission k key sig row x now ids ms bs h v);
  }

  handle_refusal-Grows :
      (row : AuthorizationRow) (key : Option Text) (r : Result ⊤)
      → Follows (Grows c) (handle_refusal row key r)
  unfolding handle_refusal audit_proof_failure
  handle_refusal-Grows row key (ok done) = search (follows_rules, Grows-IsPreorder c)
  handle_refusal-Grows row key (raised (Failure.proof_failure code)) =
      search (follows_rules, Grows-IsPreorder c, audit-Grows c)
  handle_refusal-Grows row key (raised other) = search (follows_rules, Grows-IsPreorder c)

  require_policy_scheme-Grows :
      (row : AuthorizationRow) → Follows (Grows c) (require_policy_scheme row)
  unfolding require_policy_scheme
  require_policy_scheme-Grows row = search (follows_rules, Grows-IsPreorder c)

  rebuild_bound_transaction-Grows :
      (row : AuthorizationRow) → Follows (Grows c) (rebuild_bound_transaction c row)
  unfolding rebuild_bound_transaction
  rebuild_bound_transaction-Grows row = search (follows_rules, Grows-IsPreorder c)

  check_proof-Grows :
      (row : AuthorizationRow) (key : Text) (sig : Characters)
      → Follows (Grows c) (check_proof c row key sig)
  unfolding check_proof
  check_proof-Grows row key sig = record {
    at = λ s.
        let tried =
          Follows-bind (Grows-IsPreorder c) _ (λ _. lift (verify_supplied_user_proof c row key sig))
            (require_policy_scheme-Grows row) (λ _. Follows-lift (Grows-IsPreorder c) _) in
        (Grows-IsPreorder c).transitive s _ _ (tried.at s)
          ((handle_refusal-Grows row (some key) _).at _);
  }

  handle_refusal-ok :
      (row : AuthorizationRow) (key : Option Text) (r : Result ⊤) (s : Store) {u : ⊤}
      → (handle_refusal row key r s).0 ≡ ok u
      → r ≡ ok tt
  unfolding handle_refusal ◌>>=◌ audit
  handle_refusal-ok row key (ok done) s h = refl
  handle_refusal-ok row key (raised (Failure.proof_failure code)) s h = cc
  handle_refusal-ok row key (raised other) s h = cc

  check_proof-ok :
      (row : AuthorizationRow) (key : Text) (sig : Characters) (s : Store) {u : ⊤}
      → (check_proof c row key sig s).0 ≡ ok u
      → verify_supplied_user_proof c row key sig ≡ ok tt
  unfolding check_proof ◌>>=◌
  check_proof-ok row key sig s h = ground (arith, handle_refusal-ok row (some key) _ _ h)

  reload-has_id :
      (k : Text) (s t : Store) (found : Option AuthorizationRow) (row : AuthorizationRow)
      → (reload k s).0 ≡ ok found
      → (or_raise found Failure.not_found t).0 ≡ ok row
      → row.authorization_id ≡ k
  unfolding reload ◌>>=◌
  reload-has_id k s t found row e f =
      let hit : find (has_id k) s.authorizations ≡ some row =
        cc (e, or_raise-ok found Failure.not_found t f) in
      ground (arith, find-accepts (has_id k) s.authorizations hit)

  pub approve_authorization_with_signature-Grows :
      (mission k key : Text) (sig : Characters) (now : Moment)
      → Follows (Grows c) (approve_authorization_with_signature c mission k key sig now)
  unfolding approve_authorization_with_signature
  approve_authorization_with_signature-Grows mission k key sig now =
      let o = Grows-IsPreorder c in
      Follows-bind_ok o _ _ (reload-Grows c k) λ s found read.
        Follows-bind_ok o _ _ (Follows-or_raise o found Failure.not_found) λ t row present.
          Follows-bind_ok o _ _ (Follows-raise_if o _ _) λ u _ mission_eq.
            Follows-bind o _ _ (Follows-when o _ _ (classify_and_raise-Grows c k none now)) λ _.
              Follows-bind o _ _ (search (follows_rules, o, audit-Grows c)) λ _.
                Follows-bind o _ _ (rebuild_bound_transaction-Grows row) λ _.
                  Follows-bind_ok o _ _ (Follows-raise_if o _ _) λ v _ version_eq.
                    Follows-bind_ok o _ _ (check_proof-Grows row key sig) λ w _ checked.
                      Follows-bind o _ _
                        (apply_transition-Grows c (provable mission k row now) (proven key sig) λ x.
                          proven-Successor mission k key sig row x now
                            (reload-has_id k s t found row read present)
                            (raise_if_ne-ok row.mission_id mission _ u mission_eq)
                            (raise_if_ne-ok row.binding_version binding_version _ v version_eq)
                            (check_proof-ok row key sig w checked))
                        λ n.
                          search
                            (
                              follows_rules,
                              Grows-IsPreorder c,
                              audit-Grows c,
                              reload-Grows c,
                              classify_and_raise-Grows c,
                            )
                            depth 8
