-- ===== src/Kernel/Authorization/Evolution.antt =====
-- How one row, and the table of rows, may change: the lifecycle of packages/schemas/authorization.py.
use pactra.Base.{
  Text, ◌≡◌, refl, ap, ◌∙◌, Bool, true, false, not, ◌&&◌, ◌||◌, none, some, List, [], ◌∷◌, ◌++◌, ⊤,
  is_some, is_none, find, find-head, update_where, if◌then◌else◌, Bool-cases, inl, inr,
}
use mathlib.Core.Path.{subst}
use pactra.Action.{ok}
use pactra.Kernel.Transaction.{Crypto, Characters}
use pactra.Kernel.Approval.{user_ed25519, policy_auto, legacy_server, scheme_eq}
use pactra.Kernel.Authorization.Rows.{
  AuthorizationRow, AuthorizationStatus, pending, active, consumed, status_eq, has_id,
}
use pactra.Kernel.Authorization.Proof.{verify_supplied_user_proof}

-- `TERMINAL_STATUSES`
abbrev pub is_terminal : AuthorizationStatus → Bool
is_terminal pending = false
is_terminal active = false
is_terminal _ = true

-- The validator `_consumed_at_matches_status` of `Authorization`.
abbrev pub bool_eq : Bool → Bool → Bool
bool_eq true b = b
bool_eq false b = not b

unfoldable pub validates : AuthorizationRow → Bool
validates row =
    bool_eq (status_eq row.status consumed) (is_some row.consumed_at)
    && bool_eq (is_some row.signing_key_id) (is_some row.approval_signature)
    && (if scheme_eq row.approval_scheme policy_auto || scheme_eq row.approval_scheme legacy_server
        then is_none row.signing_key_id
        else (if status_eq row.status pending
            then is_none row.signing_key_id
            else (if status_eq row.status active || status_eq row.status consumed
                then is_some row.signing_key_id
                else true)))

-- The columns that no operation writes after the issuance.
abbrev pub frozen : AuthorizationRow → AuthorizationRow
frozen row = record row {
  status = pending;
  signing_key_id = none;
  approval_signature = none;
  consumed_at = none;
}

abbrev pub is_usable : AuthorizationStatus → Bool
is_usable active = true
is_usable consumed = true
is_usable _ = false

-- A usable row of the user's scheme carries a signature that verifies for its own challenge.
abbrev pub IsProven : Crypto → AuthorizationRow → Type 0
IsProven c row =
    row.approval_scheme ≡ user_ed25519
    → is_usable row.status ≡ true
    → (key : Text) × (signature : Characters) × (row.signing_key_id ≡ some key)
      × (row.approval_signature ≡ some signature)
      × (verify_supplied_user_proof c row key signature ≡ ok tt)

pub record Successor (c : Crypto) (old new : AuthorizationRow) : Type 0 where
  pub same : frozen new ≡ frozen old
  pub final : is_terminal old.status ≡ true → new ≡ old
  pub valid : validates old ≡ true → validates new ≡ true
  pub proven : IsProven c old → IsProven c new

module _ (c : Crypto) where
  pub Successor-refl : (row : AuthorizationRow) → Successor c row row
  Successor-refl row = record { same = refl; final = λ _. refl; valid = λ h. h; proven = λ h. h }

  pub Successor-trans :
      (x y z : AuthorizationRow) → Successor c x y → Successor c y z → Successor c x z
  Successor-trans x y z p q = record {
    same = q.same ∙ p.same;
    final = λ h. cc (p.final h, q.final (rw (p.final h) h));
    valid = λ h. q.valid (p.valid h);
    proven = λ h. q.proven (p.proven h);
  }

  -- A row that passes the validator, and carries its proof where it must.
  abbrev pub IsSound : AuthorizationRow → Type 0
  IsSound row = (validates row ≡ true) × IsProven c row

  abbrev pub AllSound : List AuthorizationRow → Type 0
  AllSound [] = ⊤
  AllSound (x ∷ xs) = IsSound x × AllSound xs

  -- The rows of `ys` follow those of `xs`, one by one; sound rows may come after them.
  abbrev pub Evolves : List AuthorizationRow → List AuthorizationRow → Type 0
  Evolves [] ys = AllSound ys
  Evolves (x ∷ xs) [] = ⊥
  Evolves (x ∷ xs) (y ∷ ys) = Successor c x y × Evolves xs ys

  pub Evolves-refl : (xs : List AuthorizationRow) → Evolves xs xs
  Evolves-refl [] = tt
  Evolves-refl (x ∷ xs) = (Successor-refl x, Evolves-refl xs)

  pub AllSound-Evolves : (xs ys : List AuthorizationRow) → AllSound xs → Evolves xs ys → AllSound ys
  AllSound-Evolves [] ys h e = e
  AllSound-Evolves (x ∷ xs) [] h e = absurd e
  AllSound-Evolves (x ∷ xs) (y ∷ ys) h e =
      ((e.0.valid h.0.0, e.0.proven h.0.1), AllSound-Evolves xs ys h.1 e.1)

  pub Evolves-trans :
      (xs ys zs : List AuthorizationRow) → Evolves xs ys → Evolves ys zs → Evolves xs zs
  Evolves-trans [] ys zs p q = AllSound-Evolves ys zs p q
  Evolves-trans (x ∷ xs) [] zs p q = absurd p
  Evolves-trans (x ∷ xs) (y ∷ ys) [] p q = absurd q
  Evolves-trans (x ∷ xs) (y ∷ ys) (z ∷ zs) p q =
      (Successor-trans x y z p.0 q.0, Evolves-trans xs ys zs p.1 q.1)

  pub Evolves-append : (xs ys : List AuthorizationRow) → AllSound ys → Evolves xs (xs ++ ys)
  Evolves-append [] ys h = h
  Evolves-append (x ∷ xs) ys h = (Successor-refl x, Evolves-append xs ys h)

  update_row :
      (p : AuthorizationRow → Bool) (f : AuthorizationRow → AuthorizationRow) (x : AuthorizationRow)
      → (p x ≡ true → Successor c x (f x))
      → Successor c x (if p x then f x else x)
  update_row p f x h = elim (Bool-cases (p x)) [
    | inl e ↦ rw e (h e)
    | inr e ↦ rw e (Successor-refl x)
  ]

  pub Evolves-update_where :
      (p : AuthorizationRow → Bool) (f : AuthorizationRow → AuthorizationRow)
      (xs : List AuthorizationRow)
      → ((x : AuthorizationRow) → p x ≡ true → Successor c x (f x))
      → Evolves xs (update_where p f xs)
  Evolves-update_where p f [] h = tt
  Evolves-update_where p f (x ∷ xs) h = (update_row p f x (h x), Evolves-update_where p f xs h)

  -- A row that is found before is found after, in a state that follows.
  pub find-Evolves :
      (k : Text) (xs ys : List AuthorizationRow) (r : AuthorizationRow)
      → Evolves xs ys
      → find (has_id k) xs ≡ some r
      → (r' : AuthorizationRow) × (find (has_id k) ys ≡ some r') × Successor c r r'
  find-Evolves k [] ys r e h = cc
  find-Evolves k (x ∷ xs) [] r e h = absurd e
  find-Evolves k (x ∷ xs) (y ∷ ys) r e h =
      let same_id : y.authorization_id ≡ x.authorization_id =
        ap (λ (t : AuthorizationRow). t.authorization_id) e.0.same in
      elim (Bool-cases (has_id k x)) [
        | inl hit ↦ (
          y,
          rw (same_id, hit) refl,
          subst (λ t. Successor c t y) (find-head (has_id k) x xs hit h) e.0,
        )
        | inr miss ↦
            let (r', found, follows) = find-Evolves k xs ys r e.1 (rw miss at h) in
            (r', rw (same_id, miss) found, follows)
      ]
