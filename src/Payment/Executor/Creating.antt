-- ===== src/Payment/Executor/Creating.antt =====
-- The create call, and the actions around it.
use pactra.Base.{Text, Moment, ◌+◌, ◌≤◌, ◌≡◌, Bool, Option, none, some, List, [], ◌∷◌, ◌++◌, arith}
use pactra.Action.{Result, ok, raised, Action, continue, ◌>>=◌}
use pactra.Action.Follows.{Follows}
use pactra.Kernel.Transaction.{Crypto}
use pactra.Payment.State.{PaymentIntentState}
use pactra.Payment.Rows.{
  PaymentRequest, ProviderPayment, ProviderError, Answer, answer, fails, timeout, transient,
  ambiguity, terminal, mismatch, PaymentProvider,
}
use pactra.Payment.Executor.Session.{
  ProviderCall, get_payment, create_payment, Session, record_call,
}
use pactra.Payment.Executor.Create.{
  audit_retry, refused_transiently, refused_terminally, settled, created, create, preflight,
  search_and_create,
}
use pactra.Payment.Executor.Moves.{
  RowMoves, RowMoves-refl, RowMoves-trans, creates, Keeps, Keeps-IsPreorder,
}
use pactra.Payment.Executor.Keeping.{
  keeps_rules, verify_intent_authorization-Keeps, validate_provider_payment-Keeps,
  apply_provider_payment-Keeps,
}
use pactra.Payment.Executor.Recovering.{
  record_payment_attempt-Keeps, catch_mismatch-Keeps, give_up-Keeps,
  finish_existing_before_create-Keeps, look_up-Keeps,
}

-- The intent moves along permitted transitions, and at most one payment is created.
pub record Spends (s t : Session) : Type 0 where
  pub moves : RowMoves s.intent t.intent
  pub once : creates t.calls ≤ creates s.calls + 1

pub Keeps-Spends : {A : Type 0} (m : Action Session A) → Follows Keeps m → Follows Spends m
Keeps-Spends m k = record {
  at = λ s. record { moves = (k.at s).moves; once = omega (arith, (k.at s).silent) };
}

module _ {A B : Type 0} where
  continue-Keeps :
      (r : Result A) (f : A → Action Session B) (s : Session)
      → ((a : A) → Follows Keeps (f a))
      → Keeps s (continue r f s).1
  continue-Keeps (ok a) f s k = (k a).at s
  continue-Keeps (raised e) f s k = Keeps-IsPreorder.reflexive s

  continue-Spends :
      (r : Result A) (f : A → Action Session B) (s : Session)
      → ((a : A) → Follows Spends (f a))
      → Spends s (continue r f s).1
  continue-Spends (ok a) f s k = (k a).at s
  continue-Spends (raised e) f s k = record { moves = RowMoves-refl s.intent; once = omega arith }

  -- A block that creates once at its end, or at its beginning.
  pub Spends-after :
      (m : Action Session A) (f : A → Action Session B)
      → Follows Keeps m
      → ((a : A) → Follows Spends (f a))
      → Follows Spends (m >>= f)
  unfolding ◌>>=◌
  Spends-after m f k l = record {
    at = λ s.
        let (r, s') = m s in
        let rest = continue-Spends r f s' l in
        record {
          moves = RowMoves-trans s.intent s'.intent _ (k.at s).moves rest.moves;
          once = omega (arith, (k.at s).silent, rest.once);
        };
  }

  pub Spends-before :
      (m : Action Session A) (f : A → Action Session B)
      → Follows Spends m
      → ((a : A) → Follows Keeps (f a))
      → Follows Spends (m >>= f)
  unfolding ◌>>=◌
  Spends-before m f k l = record {
    at = λ s.
        let (r, s') = m s in
        let rest = continue-Keeps r f s' l in
        record {
          moves = RowMoves-trans s.intent s'.intent _ (k.at s).moves rest.moves;
          once = omega (arith, (k.at s).once, rest.silent);
        };
  }

creates-create :
    (calls : List ProviderCall) (r : PaymentRequest)
    → creates (calls ++ create_payment r ∷ []) ≡ creates calls + 1
creates-create [] r = omega arith
creates-create (get_payment q k ∷ calls) r = creates-create calls r
creates-create (create_payment q ∷ calls) r = omega (arith, creates-create calls r)

record_call-Spends : (r : PaymentRequest) → Follows Spends (record_call (create_payment r))
unfolding record_call
record_call-Spends r = record {
  at = λ s. record {
    moves = RowMoves-refl s.intent;
    once = omega (arith, creates-create s.calls r);
  };
}

audit_retry-Keeps : (b : Bool) → Follows Keeps (audit_retry b)
unfolding audit_retry
audit_retry-Keeps b = search keeps_rules depth 8

refused_transiently-Keeps :
    (p : PaymentProvider) (now : Moment) (e : ProviderError)
    → Follows Keeps (refused_transiently p now e)
unfolding refused_transiently
refused_transiently-Keeps p now e = search (keeps_rules, give_up-Keeps, audit_retry-Keeps) depth 14

refused_terminally-Keeps : (now : Moment) (d : Text) → Follows Keeps (refused_terminally now d)
unfolding refused_terminally
refused_terminally-Keeps now d = search keeps_rules depth 12

settled-Keeps : (now : Moment) (o : Option PaymentIntentState) → Follows Keeps (settled now o)
unfolding settled
settled-Keeps now none = give_up-Keeps _ now _ _
settled-Keeps now (some s) = search keeps_rules depth 10

created-Keeps :
    (p : PaymentProvider) (now : Moment) (a : Answer ProviderPayment)
    → Follows Keeps (created p now a)
unfolding created
created-Keeps p now (fails (timeout d)) = give_up-Keeps _ now _ _
created-Keeps p now (fails (transient d)) = refused_transiently-Keeps p now (transient d)
created-Keeps p now (fails (ambiguity d)) = refused_transiently-Keeps p now (ambiguity d)
created-Keeps p now (fails (terminal d)) = refused_terminally-Keeps now d
created-Keeps p now (fails (mismatch d)) = search keeps_rules
created-Keeps p now (answer payment) =
    search
      (
        keeps_rules, catch_mismatch-Keeps, validate_provider_payment-Keeps,
        apply_provider_payment-Keeps, settled-Keeps,
      )
      depth 12

pub create-Spends :
    (c : Crypto) (p : PaymentProvider) (r : PaymentRequest) (now : Moment)
    → Follows Spends (create c p r now)
unfolding create
create-Spends c p r now = Spends-after _ _ (verify_intent_authorization-Keeps c now) λ _.
    Spends-before _ _ (record_call-Spends r)
      λ _. search (keeps_rules, record_payment_attempt-Keeps, created-Keeps) depth 10

preflight-Spends :
    (c : Crypto) (p : PaymentProvider) (r : PaymentRequest) (now : Moment)
    (a : Answer (Option ProviderPayment))
    → Follows Spends (preflight c p r now a)
unfolding preflight
preflight-Spends c p r now (fails e) = Keeps-Spends _ (give_up-Keeps _ now _ _)
preflight-Spends c p r now (answer (some x)) =
    Keeps-Spends _ (finish_existing_before_create-Keeps x now)
preflight-Spends c p r now (answer none) = create-Spends c p r now

pub search_and_create-Spends :
    (c : Crypto) (p : PaymentProvider) (now : Moment) → Follows Spends (search_and_create c p now)
unfolding search_and_create
search_and_create-Spends c p now =
    Spends-after _ _ (search keeps_rules)
      λ i. Spends-after _ _ (look_up-Keeps p) λ found. preflight-Spends c p _ now found
