-- ===== src/Payment/Webhooks/Moves.antt =====
-- What the delivery of a webhook does to the intent that it names.
use pactra.Base.{
  ℕ, Text, Moment, refl, inl, inr, Bool, true, false, Option, none, some, is_some, Bool-cases,
}
use pactra.Domain.{ReasonCode, EventType, Payload}
use pactra.Action.{◌>>=◌}
use pactra.Action.Follows.{IsPreorder, Follows, follows_rules}
use pactra.Payment.Held
use pactra.Payment.State.{PaymentIntentState, can_transition, assert_payment_transition}
use pactra.Payment.State.Reach.{here}
use pactra.Payment.Rows.{PaymentIntentRow}
use pactra.Payment.Executor.Moves.{RowMoves, RowMoves-refl, RowMoves-trans, move_to}
use pactra.Payment.Webhooks.Events.{VerifiedWebhookEvent}
use pactra.Payment.Webhooks.Deliver.{
  Delivery, holding, mark_processed, store_order, store_transaction, store_status, store_attempts,
  store_provider_evidence, keep_ambiguous, observe_again, ignore_out_of_order, move_mission,
  perform, apply_event, insert_event, deliver,
}

-- A relation between intents, as one between deliveries.
pub record Under (R : PaymentIntentRow → PaymentIntentRow → Type 0) (d e : Delivery) : Type 0 where
  pub rows : R d.held.intent e.held.intent

module _ {R : PaymentIntentRow → PaymentIntentRow → Type 0} (o : IsPreorder R) where
  pub Under-IsPreorder : IsPreorder (Under R)
  Under-IsPreorder = record {
    reflexive = λ d. record { rows = o.reflexive d.held.intent };
    transitive = λ d e f p q. record {
      rows = o.transitive d.held.intent e.held.intent f.held.intent p.rows q.rows;
    };
  }

  pub append_event-Under :
      (e : EventType) (p : Payload) → Follows (Under R) (holding (Held.append_event e p))
  unfolding holding Held.append_event ◌>>=◌
  append_event-Under e p = record { at = λ d. record { rows = o.reflexive d.held.intent } }

  pub mark_processed-Under :
      (id : Text) (now : Moment) (s : Option PaymentIntentState)
      → Follows (Under R) (mark_processed id now s)
  unfolding mark_processed
  mark_processed-Under id now s = record { at = λ d. record { rows = o.reflexive d.held.intent } }

  pub move_mission-Under : (t : PaymentIntentState) → Follows (Under R) (move_mission t)
  unfolding move_mission Held.apply_mission_state ◌>>=◌ holding
  move_mission-Under PaymentIntentState.succeeded = record {
    at = λ d. record { rows = o.reflexive d.held.intent };
  }
  move_mission-Under PaymentIntentState.failed_terminal = record {
    at = λ d. record { rows = o.reflexive d.held.intent };
  }
  move_mission-Under _ = record { at = λ d. record { rows = o.reflexive d.held.intent } }

  pub update_intent-Under :
      (f : PaymentIntentRow → PaymentIntentRow)
      → ((i : PaymentIntentRow) → R i (f i))
      → Follows (Under R) (holding (Held.update_intent f))
  unfolding holding Held.update_intent ◌>>=◌
  update_intent-Under f h = record { at = λ d. record { rows = h d.held.intent } }

  pub insert_event-Under :
      (id : Text) (event : VerifiedWebhookEvent) (intent_id : Text) (now : Moment)
      → Follows (Under R) (insert_event id event intent_id now)
  unfolding insert_event
  insert_event-Under id event intent_id now = record {
    at = λ d. record { rows = o.reflexive d.held.intent };
  }

RowMoves-IsPreorder : IsPreorder RowMoves
RowMoves-IsPreorder = record { reflexive = RowMoves-refl; transitive = RowMoves-trans }

-- An attribute that the relation does not name is written.
order-moves : (v : Option Text) (i : PaymentIntentRow) → RowMoves i (store_order v i)
order-moves none i = RowMoves-refl i
order-moves (some v) i = elim (Bool-cases (is_some i.provider_order_id)) [
  | inl held ↦ rw held (RowMoves-refl i)
  | inr free ↦ rw free (record {
    same = refl;
    path = here;
    fence = λ a e. e;
    ambiguity = λ a e. e;
    linked = λ k e. e;
  })
]

transaction-moves :
    (b : Bool) (v : Option Text) (i : PaymentIntentRow) → RowMoves i (store_transaction b v i)
transaction-moves b none i = RowMoves-refl i
transaction-moves true (some v) i = record {
  same = refl;
  path = here;
  fence = λ a e. e;
  ambiguity = λ a e. e;
  linked = λ k e. e;
}
transaction-moves false (some v) i = RowMoves-refl i

status-moves : (v : Option Text) (i : PaymentIntentRow) → RowMoves i (store_status v i)
status-moves none i = RowMoves-refl i
status-moves (some v) i = record {
  same = refl;
  path = here;
  fence = λ a e. e;
  ambiguity = λ a e. e;
  linked = λ k e. e;
}

attempts-moves : (v : Option ℕ) (i : PaymentIntentRow) → RowMoves i (store_attempts v i)
attempts-moves none i = RowMoves-refl i
attempts-moves (some v) i = record {
  same = refl;
  path = here;
  fence = λ a e. e;
  ambiguity = λ a e. e;
  linked = λ k e. e;
}

store_provider_evidence-moves :
    (event : VerifiedWebhookEvent) (t : PaymentIntentState) (i : PaymentIntentRow)
    → RowMoves i (store_provider_evidence event t i)
unfolding store_provider_evidence
store_provider_evidence-moves event t i =
    let o = order-moves event.provider_order_id i in
    let tr = transaction-moves _ event.provider_transaction_id _ in
    let st = status-moves event.provider_status _ in
    RowMoves-trans _ _ _ (RowMoves-trans _ _ _ (RowMoves-trans _ _ _ o tr) st)
      (attempts-moves event.provider_attempts _)

note_moves :
    (r : Option ReasonCode) (i : PaymentIntentRow) → RowMoves i (record i { last_reason_code = r })
note_moves r i = record {
  same = refl;
  path = here;
  fence = λ a e. e;
  ambiguity = λ a e. e;
  linked = λ k e. e;
}

transition-moves :
    (t : PaymentIntentState) (e : EventType) (p : Payload) (r : Option ReasonCode)
    → Follows (Under RowMoves) (holding (Held.apply_payment_transition t e p r))
unfolding holding Held.apply_payment_transition Held.update_intent Held.append_event ◌>>=◌
    assert_payment_transition
transition-moves t e p r = record {
  at = λ d. elim (Bool-cases (can_transition d.held.intent.state t)) [
    | inl permitted ↦ rw permitted (record { rows = move_to d.held.intent t r permitted })
    | inr illegal ↦ rw illegal (record { rows = RowMoves-refl d.held.intent })
  ];
}

UnderRowMoves : IsPreorder (Under RowMoves)
UnderRowMoves = Under-IsPreorder RowMoves-IsPreorder

change-moves :
    (f : PaymentIntentRow → PaymentIntentRow)
    → ((i : PaymentIntentRow) → RowMoves i (f i))
    → Follows (Under RowMoves) (holding (Held.update_intent f))
change-moves = update_intent-Under RowMoves-IsPreorder

ruleset moves_rules = (
  follows_rules, RowMoves-IsPreorder, UnderRowMoves, append_event-Under, mark_processed-Under,
  move_mission-Under, insert_event-Under, change-moves, store_provider_evidence-moves, note_moves,
  transition-moves,
)

module _ (id : Text) (event : VerifiedWebhookEvent) (now : Moment) where
  keep_ambiguous-moves : Follows (Under RowMoves) (keep_ambiguous id event now)
  unfolding keep_ambiguous
  keep_ambiguous-moves = search moves_rules depth 10

  observe_again-moves : Follows (Under RowMoves) (observe_again id event now)
  unfolding observe_again
  observe_again-moves = search moves_rules depth 12

  ignore_out_of_order-moves : Follows (Under RowMoves) (ignore_out_of_order id event now)
  unfolding ignore_out_of_order
  ignore_out_of_order-moves = search moves_rules depth 10

  perform-moves : Follows (Under RowMoves) (perform id event now)
  unfolding perform
  perform-moves = search moves_rules depth 12

  apply_event-moves : Follows (Under RowMoves) (apply_event id event now)
  unfolding apply_event
  apply_event-moves =
      search
        (
          moves_rules, keep_ambiguous-moves, observe_again-moves, ignore_out_of_order-moves,
          perform-moves,
        )
        depth 10

  -- The delivery of an event that has won the insert, whatever it says, moves the intent along
  -- permitted transitions only, never clears the fence, the ambiguity or the provider's reference,
  -- and never changes what is to be paid.
  pub deliver-moves : Follows (Under RowMoves) (deliver id event now)
  unfolding deliver
  deliver-moves = search (moves_rules, apply_event-moves) depth 10
