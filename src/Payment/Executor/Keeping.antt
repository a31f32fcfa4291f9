-- ===== src/Payment/Executor/Keeping.antt =====
-- The small actions of the executor and the relation `Keeps`.
use pactra.Base.{ℕ, Text, Moment, ◌≡◌, refl, Bool, Option, none, some, Option-cases, inl, inr}
use pactra.Action.{◌>>=◌}
use pactra.Action.Follows.{Follows, Follows-bind, Follows-when, follows_rules}
use pactra.Kernel.Transaction.{Crypto}
use pactra.Payment.State.{PaymentIntentState}
use pactra.Payment.State.Reach.{here}
use pactra.Payment.Rows.{PaymentIntentRow, ProviderPayment, PaymentProvider}
use pactra.Payment.Executor.Session.{
  update_intent, verify_intent_authorization, validate_provider_route,
}
use pactra.Payment.Executor.Apply.{
  assign_once, note_status, note_attempts, link_provider_payment, validate_provider_payment, settle,
  apply_provider_payment,
}
use pactra.Payment.Executor.Moves.{
  RowMoves, RowMoves-refl, Keeps, Keeps-IsPreorder, update_intent-Keeps, kernel-Keeps,
  append_event-Keeps, enqueue-Keeps, reschedule-Keeps, enqueue_reconciliation-Keeps,
  complete_event-Keeps, apply_mission_state-Keeps, record_call-Keeps,
  apply_payment_transition-Keeps,
}

pub ruleset keeps_rules = (
  follows_rules, Keeps-IsPreorder, kernel-Keeps, append_event-Keeps, enqueue-Keeps,
  reschedule-Keeps, enqueue_reconciliation-Keeps, complete_event-Keeps, apply_mission_state-Keeps,
  record_call-Keeps, apply_payment_transition-Keeps,
)

pub verify_intent_authorization-Keeps :
    (c : Crypto) (now : Moment) → Follows Keeps (verify_intent_authorization c now)
unfolding verify_intent_authorization
verify_intent_authorization-Keeps c now = search keeps_rules depth 12

pub validate_provider_route-Keeps :
    (p : PaymentProvider) → Follows Keeps (validate_provider_route p)
unfolding validate_provider_route
validate_provider_route-Keeps p = search keeps_rules

pub validate_provider_payment-Keeps :
    (b : Bool) (p : ProviderPayment) → Follows Keeps (validate_provider_payment b p)
unfolding validate_provider_payment
validate_provider_payment-Keeps b p = search keeps_rules

-- The attribute is written only where it was absent.
assign_once-Keeps :
    (read : PaymentIntentRow → Option Text) (write : Text → PaymentIntentRow → PaymentIntentRow)
    (value : Option Text)
    → ((i : PaymentIntentRow) (v : Text) → read i ≡ none → RowMoves i (write v i))
    → Follows Keeps (assign_once read write value)
unfolding assign_once ◌>>=◌ update_intent
assign_once-Keeps read write none h = record { at = Keeps-IsPreorder.reflexive }
assign_once-Keeps read write (some v) h = record {
  at = λ s. elim (Option-cases (read s.intent)) [
    | inl absent ↦ rw absent (record { moves = h s.intent v absent; silent = refl })
    | inr (old, present) ↦ rw present (Keeps-IsPreorder.reflexive s)
  ];
}

note_status-moves : (v : Option Text) (i : PaymentIntentRow) → RowMoves i (note_status v i)
unfolding note_status
note_status-moves none i = RowMoves-refl i
note_status-moves (some v) i = record {
  same = refl;
  path = here;
  fence = λ a e. e;
  ambiguity = λ a e. e;
  linked = λ k e. e;
}

note_attempts-moves : (v : Option ℕ) (i : PaymentIntentRow) → RowMoves i (note_attempts v i)
unfolding note_attempts
note_attempts-moves none i = RowMoves-refl i
note_attempts-moves (some v) i = record {
  same = refl;
  path = here;
  fence = λ a e. e;
  ambiguity = λ a e. e;
  linked = λ k e. e;
}

-- Writing an attribute that the relation does not name, or the reference where there is none.
pub reference_moves :
    (i : PaymentIntentRow) (v : Text)
    → i.provider_payment_id ≡ none
    → RowMoves i (record i { provider_payment_id = some v })
reference_moves i v h = record {
  same = refl;
  path = here;
  fence = λ a e. e;
  ambiguity = λ a e. e;
  linked = λ k e. cc;
}

order_moves :
    (i : PaymentIntentRow) (v : Text)
    → i.provider_order_id ≡ none
    → RowMoves i (record i { provider_order_id = some v })
order_moves i v h = record {
  same = refl;
  path = here;
  fence = λ a e. e;
  ambiguity = λ a e. e;
  linked = λ k e. e;
}

receipt_moves :
    (i : PaymentIntentRow) (v : Text)
    → i.provider_receipt ≡ none
    → RowMoves i (record i { provider_receipt = some v })
receipt_moves i v h = record {
  same = refl;
  path = here;
  fence = λ a e. e;
  ambiguity = λ a e. e;
  linked = λ k e. e;
}

transaction_moves :
    (i : PaymentIntentRow) (v : Text)
    → i.provider_transaction_id ≡ none
    → RowMoves i (record i { provider_transaction_id = some v })
transaction_moves i v h = record {
  same = refl;
  path = here;
  fence = λ a e. e;
  ambiguity = λ a e. e;
  linked = λ k e. e;
}

link_provider_payment-Keeps : (p : ProviderPayment) → Follows Keeps (link_provider_payment p)
unfolding link_provider_payment
link_provider_payment-Keeps p =
    let o = Keeps-IsPreorder in
    Follows-bind o _ _ (assign_once-Keeps _ _ _ reference_moves) λ _.
      Follows-bind o _ _ (assign_once-Keeps _ _ _ order_moves) λ _.
        Follows-bind o _ _ (assign_once-Keeps _ _ _ receipt_moves) λ _.
          Follows-bind o _ _ (Follows-when o _ _ (assign_once-Keeps _ _ _ transaction_moves)) λ _.
            Follows-bind o _ _ (update_intent-Keeps _ (note_status-moves p.provider_status))
              λ _. update_intent-Keeps _ (note_attempts-moves p.provider_attempts)

settle-Keeps :
    (t : PaymentIntentState) (p : ProviderPayment) (now : Moment) → Follows Keeps (settle t p now)
unfolding settle
settle-Keeps PaymentIntentState.succeeded p now = search keeps_rules depth 8
settle-Keeps _ p now = search keeps_rules depth 8

pub apply_provider_payment-Keeps :
    (p : ProviderPayment) (now : Moment) → Follows Keeps (apply_provider_payment p now)
unfolding apply_provider_payment
apply_provider_payment-Keeps p now =
    search (keeps_rules, validate_provider_payment-Keeps, link_provider_payment-Keeps, settle-Keeps)
      depth 12
