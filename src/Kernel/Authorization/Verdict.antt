-- ===== src/Kernel/Authorization/Verdict.antt =====
-- What a consumption answers, as a function of the row that it finds.
use pactra.Base.{
  ◌∙◌, Text, Moment, ◌≤◌, ◌≡◌, refl, ◌&&◌, Option, none, some, arith, ◌==◌, ltb, find, count,
  update_where, find-accepts, if◌then◌else◌,
}
use pactra.Domain.{Failure}
use pactra.Action.{Result, ok, raised, ◌>>=◌}
use pactra.Kernel.Transaction.{Crypto, BoundTransaction, digest}
use pactra.Kernel.Authorization.Rows.{
  AuthorizationRow, active, status_eq, Store, has_id, apply_transition, reload, audit,
}
use pactra.Kernel.Authorization.Refusals.{refusal, classify_and_raise-eq}
use pactra.Kernel.Authorization.Answers.{answer, transition, transition-answer}
use pactra.Kernel.Authorization.Lifecycle.{consumable, consumed_row, consume_authorization}

-- What `consume_authorization` answers, read off the one row with the key.
abbrev pub consume_verdict :
    Crypto → BoundTransaction → Moment → Option AuthorizationRow → Result AuthorizationRow
consume_verdict c tx now none = raised Failure.not_found
consume_verdict c tx now (some row) =
    if status_eq row.status active
      && row.transaction_digest == digest c tx
      && ltb now row.expires_at
    then ok (consumed_row now row)
    else raised (refusal c (some tx) now (some row))

-- The row that is found has the key, which the condition of the update asks for.
consume_verdict-answer :
    (c : Crypto) (k : Text) (tx : BoundTransaction) (now : Moment) (s : Store)
    (o : Option AuthorizationRow)
    → find (has_id k) s.authorizations ≡ o
    → answer c (some tx) now (consumable c k tx now) (consumed_row now) o
      ≡ consume_verdict c tx now o
consume_verdict-answer c k tx now s none e = refl
consume_verdict-answer c k tx now s (some row) e =
    ground (arith, find-accepts (has_id k) s.authorizations e)

module _ (c : Crypto) (k : Text) (now : Moment) (s : Store)
    (keyed : count (has_id k) s.authorizations ≤ 1) where
  -- If the key stands at most once in the table, the consumption by one conditional UPDATE
  -- answers as the checks made one after the other on the row with the key would: no row, a
  -- replay, a transaction with another digest, an expired authorization, a wrong status, in this
  -- order, and else the row, consumed at this instant.
  pub consume_authorization-verdict :
      (tx : BoundTransaction)
      → (consume_authorization c k tx now s).0
        ≡ consume_verdict c tx now (find (has_id k) s.authorizations)
  unfolding consume_authorization transition
  consume_authorization-verdict tx =
      transition-answer c k now s keyed (some tx) (consumable c k tx now) (consumed_row now) _ _
        (λ x h. ground arith) (λ x. refl)
      ∙ consume_verdict-answer c k tx now s (find (has_id k) s.authorizations) refl

  abbrev after_consume : BoundTransaction → Store
  after_consume tx = record s {
    authorizations = update_where (consumable c k tx now) (consumed_row now) s.authorizations;
  }

  -- The row that a consumption returns is the one with the key afterwards.
  pub consume_authorization-row :
      (tx : BoundTransaction) (row : AuthorizationRow)
      → (consume_authorization c k tx now s).0 ≡ ok row
      → find (has_id k) (consume_authorization c k tx now s).1.authorizations ≡ some row
  unfolding consume_authorization ◌>>=◌ apply_transition reload audit
  consume_authorization-row tx row h =
      ground (arith, classify_and_raise-eq c k (some tx) now (after_consume tx))
