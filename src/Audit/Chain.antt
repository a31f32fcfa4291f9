-- ===== src/Audit/Chain.antt =====
-- What the verification of a chain accepts (services/audit_ledger/verify.py).
use pactra.Base.{
  ⊤, ℕ, suc, Text, ◌≡◌, refl, inl, inr, true, Option, some, List, [], ◌∷◌, arith, ◌==◌, Bool-cases,
  sym,
}
use pactra.Kernel.Transaction.{Characters}
use pactra.Audit.Rows.{chars_eq, AuditEventRow, EventHash, body_of, compute_event_hash}
use pactra.Audit.Verify.{is_structured, link, verify_from}

chars_eq_sound : (xs ys : Characters) → chars_eq xs ys ≡ true → xs ≡ ys
chars_eq_sound [] [] h = refl
chars_eq_sound [] (y ∷ ys) h = cc
chars_eq_sound (x ∷ xs) [] h = cc
chars_eq_sound (x ∷ xs) (y ∷ ys) h = ground (arith, chars_eq_sound xs ys)

chars_eq_refl : (xs : Characters) → chars_eq xs xs ≡ true
chars_eq_refl [] = refl
chars_eq_refl (x ∷ xs) = ground (arith, chars_eq_refl xs)

-- What the loop accepts, in the terms of its own tests.
abbrev pub Linked : EventHash → ℕ → Option AuditEventRow → List AuditEventRow → Type 0
Linked hash i p [] = ⊤
Linked hash i p (e ∷ es) =
    (is_structured e ≡ true)
    × (e.sequence ≡ i)
    × (e.previous_hash ≡ link p)
    × (e.event_hash ≡ compute_event_hash hash (body_of e))
    × Linked hash (suc i) (some e) es

-- The loop accepts a chain only.
pub verify_from_sound :
    (hash : EventHash) (m : Text) (i : ℕ) (p : Option AuditEventRow) (es : List AuditEventRow)
    → (verify_from hash m i p es).valid ≡ true
    → Linked hash i p es
unfolding verify_from
verify_from_sound hash m i p [] h = tt
verify_from_sound hash m i p (e ∷ es) h = elim (Bool-cases (is_structured e)) [
  | inr b ↦ absurd (ground arith)
  | inl b ↦ elim (Bool-cases (e.sequence == i)) [
    | inr q ↦ absurd (ground arith)
    | inl q ↦ elim (Bool-cases (chars_eq e.previous_hash (link p))) [
      | inr l ↦ absurd (ground arith)
      | inl l ↦ elim (Bool-cases (chars_eq (compute_event_hash hash (body_of e)) e.event_hash)) [
        | inr k ↦ absurd (ground arith)
        | inl k ↦ (
          b,
          ground arith,
          chars_eq_sound _ _ l,
          sym (chars_eq_sound _ _ k),
          verify_from_sound hash m (suc i) (some e) es (rw (b, q, l, k) at h),
        )
      ]
    ]
  ]
]

-- Every chain is accepted.
pub verify_from_complete :
    (hash : EventHash) (m : Text) (i : ℕ) (p : Option AuditEventRow) (es : List AuditEventRow)
    → Linked hash i p es
    → (verify_from hash m i p es).valid ≡ true
unfolding verify_from
verify_from_complete hash m i p [] h = refl
verify_from_complete hash m i p (e ∷ es) (b, q, l, k, rest) =
    let linked : chars_eq e.previous_hash (link p) ≡ true = rw l (chars_eq_refl (link p)) in
    let hashed : chars_eq (compute_event_hash hash (body_of e)) e.event_hash ≡ true =
      rw k (chars_eq_refl (compute_event_hash hash (body_of e))) in
    let further = verify_from_complete hash m (suc i) (some e) es rest in ground arith
