-- ===== src/Kernel/Authorization/Operations.antt =====
-- The operations of the authorization service and the lifecycle of rows.
use pactra.Base.{
  Text, Moment, ◌≡◌, refl, Bool, true, Option, none, some, List, [], ◌++◌, ◌∙◌, arith,
}
use mathlib.Core.List.{append-nil, append_assoc}
use pactra.Domain.{EventType, Payload, AuditEntry}
use pactra.Action.Follows.{IsPreorder, Follows, Follows-bind, follows_rules}
use pactra.Kernel.Transaction.{Crypto, BoundTransaction}
use pactra.Kernel.Authorization.Rows.{AuthorizationRow, Store, apply_transition, reload, audit}
use pactra.Kernel.Authorization.Classify.{
  expire_if_stale, classify_and_raise, demote, is_live, expiring, record_expiry,
  raise_time_or_state, raise_unconsumed,
}
use pactra.Kernel.Authorization.Evolution.{
  Successor, Evolves, Evolves-refl, Evolves-trans, Evolves-update_where, validates, is_terminal,
}

-- A list that grows at its end.
abbrev pub IsPrefix : List AuditEntry → List AuditEntry → Type 0
IsPrefix xs ys = (zs : List AuditEntry) × (ys ≡ xs ++ zs)

module _ (c : Crypto) where
  -- The rows follow the lifecycle, the decisions stay, and the audit log only grows.
  pub record Grows (s t : Store) : Type 0 where
    pub rows : Evolves c s.authorizations t.authorizations
    pub decided : t.decisions ≡ s.decisions
    pub logged : IsPrefix s.audit t.audit

  Grows-refl : (s : Store) → Grows s s
  Grows-refl s = record {
    rows = Evolves-refl c s.authorizations;
    decided = refl;
    logged = ([], simp append-nil);
  }

  Grows-trans : (s t u : Store) → Grows s t → Grows t u → Grows s u
  Grows-trans s t u p q = record {
    rows = Evolves-trans c s.authorizations t.authorizations u.authorizations p.rows q.rows;
    decided = q.decided ∙ p.decided;
    logged = (
      p.logged.0 ++ q.logged.0,
      rw (q.logged.1, p.logged.1) (append_assoc s.audit p.logged.0 q.logged.0),
    );
  }

  pub Grows-IsPreorder : IsPreorder Grows
  Grows-IsPreorder = record { reflexive = Grows-refl; transitive = Grows-trans }

  pub audit-Grows :
      (mission_id : Text) (event_type : EventType) (payload : Payload)
      → Follows Grows (audit mission_id event_type payload)
  unfolding audit
  audit-Grows m e p = record {
    at = λ s. record { rows = Evolves-refl c s.authorizations; decided = refl; logged = (_, refl) };
  }

  pub reload-Grows : (k : Text) → Follows Grows (reload k)
  unfolding reload
  reload-Grows k = record { at = Grows-refl }

  pub apply_transition-Grows :
      (p : AuthorizationRow → Bool) (f : AuthorizationRow → AuthorizationRow)
      → ((x : AuthorizationRow) → p x ≡ true → Successor c x (f x))
      → Follows Grows (apply_transition p f)
  unfolding apply_transition
  apply_transition-Grows p f h = record {
    at = λ s. record {
      rows = Evolves-update_where c p f s.authorizations h;
      decided = refl;
      logged = ([], simp append-nil);
    };
  }

  live-not_terminal : (x : AuthorizationRow) → is_live x ≡ true → is_terminal x.status ≡ true → ⊥
  live-not_terminal x h t = ground arith

  demote-Successor : (x : AuthorizationRow) → is_live x ≡ true → Successor c x (demote x)
  unfolding validates
  demote-Successor x h = record {
    same = refl;
    final = λ t. absurd (live-not_terminal x h t);
    valid = λ v. ground arith;
    proven = λ p s u. cc;
  }

  expiring-Successor :
      (k : Text) (now : Moment) (x : AuthorizationRow)
      → expiring k now x ≡ true
      → Successor c x (demote x)
  unfolding expiring
  expiring-Successor k now x h = demote-Successor x (ground arith)

  record_expiry-Grows : (row : Option AuthorizationRow) → Follows Grows (record_expiry row)
  unfolding record_expiry
  record_expiry-Grows none = search (follows_rules, Grows-IsPreorder)
  record_expiry-Grows (some row) = search (follows_rules, Grows-IsPreorder, audit-Grows)

  pub expire_if_stale-Grows : (k : Text) (now : Moment) → Follows Grows (expire_if_stale k now)
  unfolding expire_if_stale
  expire_if_stale-Grows k now =
      Follows-bind Grows-IsPreorder _ _
        (apply_transition-Grows (expiring k now) demote (expiring-Successor k now))
        λ n. search (follows_rules, Grows-IsPreorder, reload-Grows, record_expiry-Grows)

  raise_time_or_state-Grows :
      (k : Text) (now : Moment) (row : AuthorizationRow)
      → Follows Grows (raise_time_or_state k now row)
  unfolding raise_time_or_state
  raise_time_or_state-Grows k now row =
      search (follows_rules, Grows-IsPreorder, expire_if_stale-Grows)

  raise_unconsumed-Grows :
      (k : Text) (tx : Option BoundTransaction) (now : Moment) (row : AuthorizationRow)
      → Follows Grows (raise_unconsumed c k tx now row)
  unfolding raise_unconsumed
  raise_unconsumed-Grows k none now row = raise_time_or_state-Grows k now row
  raise_unconsumed-Grows k (some tx) now row =
      search (follows_rules, Grows-IsPreorder, audit-Grows, raise_time_or_state-Grows)

  pub classify_and_raise-Grows :
      (k : Text) (tx : Option BoundTransaction) (now : Moment)
      → Follows Grows (classify_and_raise c k tx now)
  unfolding classify_and_raise
  classify_and_raise-Grows k tx now =
      search (follows_rules, Grows-IsPreorder, audit-Grows, reload-Grows, raise_unconsumed-Grows)
        depth 8
