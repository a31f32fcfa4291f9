-- ===== src/Action.antt =====
-- A call inside a database session: it returns or raises, and what it wrote before it raised
-- is still in the session, which the caller commits or rolls back.
pub mod Follows
pub mod Reads
use pactra.Base.{
  ⊤, ℕ, ◌≡◌, refl, Bool, true, false, not, Option, none, some, arith, ◌==◌, if◌then◌else◌,
}
use pactra.Domain.{Failure}

pub data Result {ℓ} (A : Type ℓ) : Type ℓ where
  ok : A → Result A
  raised : Failure → Result A

abbrev pub Action : Type 0 → Type 0 → Type 0
Action S A = S → Result A × S

module _ {A : Type 0} where
  abbrev pub present : Option A → Failure → Result A
  present none e = raised e
  present (some a) e = ok a

module _ {S A : Type 0} where
  pub pure : A → Action S A
  pure a s = (ok a, s)

  pub raise : Failure → Action S A
  raise e s = (raised e, s)

  pub lift : Result A → Action S A
  lift r s = (r, s)

  pub gets : (S → A) → Action S A
  gets f s = (ok (f s), s)

  -- `if row is None: raise e`
  pub or_raise : Option A → Failure → Action S A
  or_raise o e s = (present o e, s)

module _ {S : Type 0} where
  pub modify : (S → S) → Action S ⊤
  modify f s = (ok tt, f s)

  -- `if c: raise e`
  pub raise_if : Bool → Failure → Action S ⊤
  raise_if c e s = (if c then raised e else ok tt, s)

  -- `if c: await m`
  pub when : Bool → Action S ⊤ → Action S ⊤
  when true m s = m s
  when false m s = (ok tt, s)

module _ {S A B : Type 0} where
  abbrev pub continue : Result A → (A → Action S B) → Action S B
  continue (ok a) f s = f a s
  continue (raised e) f s = (raised e, s)

  infixl 5 ◌>>=◌ ◌>>◌
  -- Opening this opens the other operations on actions too.
  unfoldable pub ◌>>=◌ : Action S A → (A → Action S B) → Action S B
  unfolding pure raise lift gets or_raise modify raise_if when
  ◌>>=◌ m f s = let (r, s') = m s in continue r f s'

  abbrev pub ◌>>◌ : Action S A → Action S B → Action S B
  m >> n = m >>= λ _. n

-- What a passed guard shows.
pub raise_if_ne-ok :
    {S : Type 0} (x y : ℕ) (e : Failure) (s : S) {u : ⊤}
    → (raise_if (not (x == y)) e s).0 ≡ ok u
    → x ≡ y
unfolding raise_if
raise_if_ne-ok x y e s h = ground arith

pub or_raise-ok :
    {S A : Type 0} (o : Option A) (e : Failure) (s : S) {a : A}
    → (or_raise o e s).0 ≡ ok a
    → o ≡ some a
unfolding or_raise
or_raise-ok o e s h = ground arith

-- A block that returned went through its first action.
pub >>=-ok :
    {S A B : Type 0} (m : Action S A) (f : A → Action S B) (s : S) {b : B}
    → ((m >>= f) s).0 ≡ ok b
    → (a : A) × ((m s).0 ≡ ok a) × ((m >>= f) s ≡ f a (m s).1)
unfolding ◌>>=◌
>>=-ok {S} {A} {B} m f s {b} h = go (m s).0 h
  where
    go :
        (r : Result A)
        → (continue r f (m s).1).0 ≡ ok b
        → (a : A) × (r ≡ ok a) × (continue r f (m s).1 ≡ f a (m s).1)
    go (ok a) e = (a, refl, refl)
    go (raised x) e = cc

-- So did what follows it, on the state it left.
pub >>=-rest :
    {S A B : Type 0} (m : Action S A) (f : A → Action S B) (s : S) {b : B}
    → ((m >>= f) s).0 ≡ ok b
    → (a : A) × ((m s).0 ≡ ok a) × ((f a (m s).1).0 ≡ ok b)
>>=-rest m f s h = let (a, returned, step) = >>=-ok m f s h in (a, returned, rw step at h)

pub lift-ok : {S A : Type 0} (r : Result A) (s : S) {a : A} → (lift r s).0 ≡ ok a → r ≡ ok a
unfolding lift
lift-ok r s h = h

pub pure-ok : {S A : Type 0} (x : A) (s : S) {a : A} → (pure x s).0 ≡ ok a → x ≡ a
unfolding pure
pure-ok x s h = ground arith

pub gets-ok : {S A : Type 0} (f : S → A) (s : S) {a : A} → (gets f s).0 ≡ ok a → f s ≡ a
unfolding gets
gets-ok f s h = ground arith

pub raise_if-ok :
    {S : Type 0} (c : Bool) (e : Failure) (s : S) {u : ⊤} → (raise_if c e s).0 ≡ ok u → c ≡ false
unfolding raise_if
raise_if-ok c e s h = ground arith

-- A guard that ends in a raise was not entered by a block that returned.
pub when-raise-ok :
    {S A : Type 0} (c : Bool) (m : Action S A) (e : Failure) (s : S) {u : ⊤}
    → (when c (m >>= λ _. raise e) s).0 ≡ ok u
    → (c ≡ false) × ((when c (m >>= λ _. raise e) s).1 ≡ s)
unfolding ◌>>=◌
when-raise-ok false m e s h = (refl, refl)
when-raise-ok true m e s h = ground arith
