-- ===== src/Action/Reads.antt =====
-- Actions that leave the state alone whenever they return.
use pactra.Base.{◌≡◌, refl, ◌∙◌, ap, Bool, Option}
use pactra.Domain.{Failure}
use pactra.Action.{
  Result, ok, Action, pure, raise, lift, gets, or_raise, raise_if, when, ◌>>=◌, >>=-ok,
  when-raise-ok,
}

pub record Reads {S A : Type 0} (m : Action S A) : Type 0 where
  pub at : (s : S) (a : A) → (m s).0 ≡ ok a → (m s).1 ≡ s

module _ {S A : Type 0} where
  pub Reads-pure : (a : A) → Reads {S = S} (pure a)
  unfolding pure
  Reads-pure a = record { at = λ s b h. refl }

  pub Reads-raise : (e : Failure) → Reads {S = S} {A = A} (raise e)
  unfolding raise
  Reads-raise e = record { at = λ s b h. refl }

  pub Reads-lift : (r : Result A) → Reads {S = S} (lift r)
  unfolding lift
  Reads-lift r = record { at = λ s b h. refl }

  pub Reads-gets : (f : S → A) → Reads (gets f)
  unfolding gets
  Reads-gets f = record { at = λ s b h. refl }

  pub Reads-or_raise : (o : Option A) (e : Failure) → Reads {S = S} (or_raise o e)
  unfolding or_raise
  Reads-or_raise o e = record { at = λ s b h. refl }

module _ {S : Type 0} where
  pub Reads-raise_if : (c : Bool) (e : Failure) → Reads {S = S} (raise_if c e)
  unfolding raise_if
  Reads-raise_if c e = record { at = λ s b h. refl }

  -- A guard whose body raises.
  pub Reads-guard :
      {A : Type 0} (c : Bool) (m : Action S A) (e : Failure) → Reads (when c (m >>= λ _. raise e))
  Reads-guard c m e = record { at = λ s b h. (when-raise-ok c m e s h).1 }

module _ {S A B : Type 0} where
  pub Reads-bind :
      (m : Action S A) (f : A → Action S B) → Reads m → ((a : A) → Reads (f a)) → Reads (m >>= f)
  Reads-bind m f km kf = record {
    at = λ s b h.
        let (a, returned, step) = >>=-ok m f s h in
        let same = km.at s a returned in
        let rest = (kf a).at (m s).1 b (rw step at h) in ap (λ r. r.1) step ∙ rest ∙ same;
  }

pub ruleset reads_rules = (
  Reads-pure, Reads-raise, Reads-lift, Reads-gets, Reads-or_raise, Reads-raise_if, Reads-guard,
  Reads-bind,
)

-- A block that returned and began by reading: the rest returned in the same state.
pub >>=-read :
    {S A B : Type 0} (m : Action S A) (f : A → Action S B) (s : S) {b : B}
    → Reads m
    → ((m >>= f) s).0 ≡ ok b
    → (a : A) × ((m s).0 ≡ ok a) × ((f a s).0 ≡ ok b)
>>=-read m f s k h =
    let (a, returned, step) = >>=-ok m f s h in
    (a, returned, rw (← k.at s a returned) (rw step at h))
