-- ===== src/Policy/Register.antt =====
-- The protected policy register (services/security_kernel/policy_register.py), as the dictionary of
-- its fields, and what a sequence of writes can do to it.
use pactra.Base.{
  Text, ◌≡◌, refl, ◌<◌, inl, inr, Bool, Option, none, some, List, [], ◌∷◌, ◌==◌, arith, find,
  update_where, Option-cases,
}
use pactra.Policy.Provenance.{level, Provenanced, merge_keep_higher}

pub data Outcome (A : Type 0) : Type 0 where
  updated : Provenanced A → Outcome A
  authority_escalation : Outcome A
  not_protected : Outcome A

pub record Entry (A : Type 0) : Type 0 where
  pub field : Text
  pub held : Provenanced A

-- A write of a value into a field.
pub record Claim (A : Type 0) : Type 0 where
  pub target : Text
  pub incoming : Provenanced A

module _ {A : Type 0} where
  abbrev pub names : Text → Entry A → Bool
  names field e = e.field == field

  abbrev pub hold : Provenanced A → Entry A → Entry A
  hold p e = record e { held = p }

  abbrev pub store_merged :
      Claim A → List (Entry A) → Option (Provenanced A) → Outcome A × List (Entry A)
  store_merged c values none = (authority_escalation, values)
  store_merged c values (some p) = (updated p, update_where (names c.target) (hold p) values)

  unfoldable pub apply : Claim A → List (Entry A) → Outcome A × List (Entry A)
  unfolding merge_keep_higher
  apply c values = elim (find (names c.target) values) [
    | none ↦ (not_protected, values)
    | some e ↦ store_merged c values (merge_keep_higher e.held c.incoming)
  ]

  -- A sequence of writes, each refusal caught by its caller.
  unfoldable pub apply_all : List (Claim A) → List (Entry A) → List (Entry A)
  unfolding apply
  apply_all [] values = values
  apply_all (c ∷ cs) values = apply_all cs (apply c values).1

  -- Every field is held at the level of the user's policy.
  abbrev pub Protected : List (Entry A) → Type 0
  Protected values =
      (field : Text) (e : Entry A)
      → find (names field) values ≡ some e
      → level e.held.authority ≡ 60

  -- Every write is of a lower level.
  abbrev pub Below : List (Claim A) → Type 0
  Below [] = Unit
  Below (c ∷ cs) = (level c.incoming.authority < 60) × Below cs

  apply-refused :
      (c : Claim A) (values : List (Entry A))
      → Protected values
      → level c.incoming.authority < 60
      → (apply c values).1 ≡ values
  unfolding apply merge_keep_higher
  apply-refused c values p l = elim (Option-cases (find (names c.target) values)) [
    | inl gone ↦ rw (apply, gone) refl
    | inr (e, there) ↦ ground (arith, there, p c.target e there, l)
  ]

  -- No sequence of writes below the level of the user's policy, whatever it claims about any field,
  -- changes a register whose fields are all held at that level.
  pub apply_all-unchanged :
      (cs : List (Claim A)) (values : List (Entry A))
      → Protected values
      → Below cs
      → apply_all cs values ≡ values
  unfolding apply_all
  apply_all-unchanged [] values p b = refl
  apply_all-unchanged (c ∷ cs) values p (l, b) =
      rw (apply-refused c values p l) (apply_all-unchanged cs values p b)
