-- ===== src/Base/Lists.antt =====
-- Lists measured by native numbers, membership as a test, and tables of rows.
use Prim.Native.Nat.{ℕ, suc, ◌+◌}
use mathlib.Core.Path.{◌≡◌}
use mathlib.Core.Bool.{Bool, true, false, ◌||◌}
use mathlib.Core.Option.{Option, none, some}
use mathlib.Core.List.{List, [], ◌∷◌, ◌++◌}
use native.Mathlib.Omega.{arith}
use pactra.Base.Tests.{◌==◌, if◌then◌else◌, Bool-cases}
use mathlib.Core.Logic.{inl, inr}

-- `x in xs`, for identifiers.
abbrev pub contains : ℕ → List ℕ → Bool
contains k [] = false
contains k (x ∷ xs) = k == x || contains k xs

module _ {ℓ} {A : Type ℓ} where
  abbrev pub length : List A → ℕ
  length [] = 0
  length (x ∷ xs) = suc (length xs)

  -- The first row that a test accepts.
  abbrev pub find : (A → Bool) → List A → Option A
  find p [] = none
  find p (x ∷ xs) = if p x then some x else find p xs

  -- How many rows a test accepts.
  abbrev pub count : (A → Bool) → List A → ℕ
  count p [] = 0
  count p (x ∷ xs) = (if p x then 1 else 0) + count p xs

  -- `UPDATE … SET f WHERE p`.
  abbrev pub update_where : (A → Bool) → (A → A) → List A → List A
  update_where p f [] = []
  update_where p f (x ∷ xs) = (if p x then f x else x) ∷ update_where p f xs

  pub length-append : (xs ys : List A) → length (xs ++ ys) ≡ length xs + length ys
  length-append [] ys = omega arith
  length-append (x ∷ xs) ys = omega (arith, length-append xs ys)

  pub find-head :
      (p : A → Bool) (x : A) (xs : List A) {r : A} → p x ≡ true → find p (x ∷ xs) ≡ some r → x ≡ r
  find-head p x xs t h = ground arith

  pub find-accepts : (p : A → Bool) (xs : List A) {r : A} → find p xs ≡ some r → p r ≡ true
  find-accepts p [] h = cc
  find-accepts p (x ∷ xs) h = elim (Bool-cases (p x)) [
    | inl hit ↦ rw (← find-head p x xs hit h) hit
    | inr miss ↦ find-accepts p xs (rw miss at h)
  ]
