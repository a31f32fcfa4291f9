-- ===== src/Base/Tables.antt =====
-- Tables with a key: a conditional update restricted to one key, when no key stands twice.
use pactra.Base.{
  ℕ, ◌≤◌, ◌≡◌, refl, Bool, true, false, Option, none, some, List, [], ◌∷◌, arith, find, find-head,
  count, update_where, is_some, if◌then◌else◌, Bool-cases, inl, inr,
}

module _ {ℓ} {A : Type ℓ} where
  -- How many of the rows with the key, of which there is at most one, pass a test.
  abbrev pub hits : (A → Bool) → Option A → ℕ
  hits q none = 0
  hits q (some r) = if q r then 1 else 0

  -- The row with the key after an update.
  abbrev pub updated : (A → Bool) → (A → A) → Option A → Option A
  updated q f none = none
  updated q f (some r) = some (if q r then f r else r)

  module _ (key q : A → Bool) (narrow : (x : A) → q x ≡ true → key x ≡ true) where
    count-zero : (xs : List A) → count key xs ≡ 0 → count q xs ≡ 0
    count-zero [] h = refl
    count-zero (x ∷ xs) h = ground (arith, narrow x, count-zero xs)

    pub count-find : (xs : List A) → count key xs ≤ 1 → count q xs ≡ hits q (find key xs)
    count-find [] h = refl
    count-find (x ∷ xs) h = elim (Bool-cases (key x)) [
      | inl hit ↦ ground (arith, count-zero xs)
      | inr miss ↦ ground (arith, narrow x, count-find xs)
    ]

  pub find-update_where :
      (key q : A → Bool) (f : A → A)
      → ((x : A) → key (f x) ≡ key x)
      → (xs : List A) → find key (update_where q f xs) ≡ updated q f (find key xs)
  find-update_where key q f keeps [] = refl
  find-update_where key q f keeps (x ∷ xs) =
      ground (arith, keeps x, find-update_where key q f keeps xs)

  -- The same where the update keeps the key of the rows that it changes.
  pub find-update_where_on :
      (key q : A → Bool) (f : A → A)
      → ((x : A) → q x ≡ true → key (f x) ≡ key x)
      → (xs : List A) → find key (update_where q f xs) ≡ updated q f (find key xs)
  find-update_where_on key q f keeps [] = refl
  find-update_where_on key q f keeps (x ∷ xs) =
      ground (arith, keeps x, find-update_where_on key q f keeps xs)

  count-found :
      (key p : A → Bool) (xs : List A) {r : A}
      → find p xs ≡ some r
      → key r ≡ true
      → 1 ≤ count key xs
  count-found key p [] h e = cc
  count-found key p (x ∷ xs) {r} h e = elim (Bool-cases (p x)) [
    | inl hit ↦ ground (arith, find-head p x xs hit h)
    | inr miss ↦ ground (arith, count-found key p xs {r = r})
  ]

  -- A row that passes a test is the one that is found, when no other passes.
  pub find_unique :
      (key p : A → Bool) (xs : List A) {r : A}
      → count key xs ≤ 1
      → find p xs ≡ some r
      → key r ≡ true
      → find key xs ≡ some r
  find_unique key p [] one h e = cc
  find_unique key p (x ∷ xs) {r} one h e = elim (Bool-cases (p x)) [
    | inl hit ↦ ground (arith, find-head p x xs hit h)
    | inr miss ↦ ground (arith, count-found key p xs {r = r}, find_unique key p xs {r = r})
  ]

  pub find-none : (p : A → Bool) (xs : List A) → is_some (find p xs) ≡ false → count p xs ≡ 0
  find-none p [] h = refl
  find-none p (x ∷ xs) h = ground (arith, find-none p xs)

  -- An update that keeps a test keeps the number of rows that pass it.
  pub count-update_where :
      (key q : A → Bool) (f : A → A)
      → ((x : A) → key (f x) ≡ key x)
      → (xs : List A) → count key (update_where q f xs) ≡ count key xs
  count-update_where key q f keeps [] = refl
  count-update_where key q f keeps (x ∷ xs) =
      ground (arith, keeps x, count-update_where key q f keeps xs)
