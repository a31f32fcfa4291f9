-- ===== src/Action/Follows.antt =====
-- A relation between the states before and after an action, one rule for each way to build one.
use pactra.Base.{⊤, ◌≡◌, refl, Bool, true, false, Option, if◌then◌else◌}
use pactra.Domain.{Failure}
use pactra.Action.{
  Result, ok, raised, Action, pure, raise, lift, gets, or_raise, raise_if, when, ◌>>=◌,
}

pub record IsPreorder {S : Type 0} (R : S → S → Type 0) : Type 0 where
  pub reflexive : (s : S) → R s s
  pub transitive : (s t u : S) → R s t → R t u → R s u

-- Whether `m` returns or raises, it leaves a state that `R` relates to the one it began in.
pub record Follows {S A : Type 0} (R : S → S → Type 0) (m : Action S A) : Type 0 where
  pub at : (s : S) → R s (m s).1

module _ {S A : Type 0} {R : S → S → Type 0} where
  pub Follows-pure : IsPreorder R → (a : A) → Follows R (pure a)
  unfolding pure
  Follows-pure o a = record { at = o.reflexive }

  pub Follows-raise : IsPreorder R → (e : Failure) → Follows R (raise {A = A} e)
  unfolding raise
  Follows-raise o e = record { at = o.reflexive }

  pub Follows-lift : IsPreorder R → (r : Result A) → Follows R (lift r)
  unfolding lift
  Follows-lift o r = record { at = o.reflexive }

  pub Follows-gets : IsPreorder R → (f : S → A) → Follows R (gets f)
  unfolding gets
  Follows-gets o f = record { at = o.reflexive }

  pub Follows-or_raise : IsPreorder R → (a : Option A) (e : Failure) → Follows R (or_raise a e)
  unfolding or_raise
  Follows-or_raise o a e = record { at = o.reflexive }

  pub Follows-if :
      (b : Bool) (m n : Action S A) → Follows R m → Follows R n → Follows R (if b then m else n)
  Follows-if true m n km kn = km
  Follows-if false m n km kn = kn

module _ {S : Type 0} {R : S → S → Type 0} where
  pub Follows-raise_if : IsPreorder R → (c : Bool) (e : Failure) → Follows R (raise_if c e)
  unfolding raise_if
  Follows-raise_if o c e = record { at = o.reflexive }

  pub Follows-when : IsPreorder R → (c : Bool) (m : Action S ⊤) → Follows R m → Follows R (when c m)
  unfolding when
  Follows-when o true m k = record { at = k.at }
  Follows-when o false m k = record { at = o.reflexive }

module _ {S A B : Type 0} {R : S → S → Type 0} where
  continue-Follows :
      IsPreorder R
      → (r : Result A) (f : A → Action S B) → ((a : A) → Follows R (f a))
      → Follows R (lift r >>= f)
  unfolding ◌>>=◌
  continue-Follows o (ok a) f kf = record { at = (kf a).at }
  continue-Follows o (raised e) f kf = record { at = o.reflexive }

  pub Follows-bind :
      IsPreorder R
      → (m : Action S A) (f : A → Action S B) → Follows R m
      → ((a : A) → Follows R (f a))
      → Follows R (m >>= f)
  unfolding ◌>>=◌
  Follows-bind o m f km kf = record {
    at = λ s.
        let (r, s') = m s in
        o.transitive s s' ((m >>= f) s).1 (km.at s) ((continue-Follows o r f kf).at s');
  }

module _ {S A B : Type 0} {R : S → S → Type 0} where
  continue-Follows_ok :
      IsPreorder R
      → (r : Result A) (f : A → Action S B) → ((a : A) → r ≡ ok a → Follows R (f a))
      → Follows R (lift r >>= f)
  unfolding ◌>>=◌
  continue-Follows_ok o (ok a) f kf = record { at = (kf a refl).at }
  continue-Follows_ok o (raised e) f kf = record { at = o.reflexive }

  -- The rest of the block may use what `m` returned.
  pub Follows-bind_ok :
      IsPreorder R
      → (m : Action S A) (f : A → Action S B) → Follows R m
      → ((s : S) (a : A) → (m s).0 ≡ ok a → Follows R (f a))
      → Follows R (m >>= f)
  unfolding ◌>>=◌
  Follows-bind_ok o m f km kf = record {
    at = λ s.
        let (r, s') = m s in
        o.transitive s s' ((m >>= f) s).1 (km.at s)
          ((continue-Follows_ok o r f (λ a e. kf s a e)).at s');
  }

pub ruleset follows_rules = (
  Follows-pure, Follows-raise, Follows-lift, Follows-gets, Follows-or_raise, Follows-if,
  Follows-raise_if, Follows-when, Follows-bind,
)
