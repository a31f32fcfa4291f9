-- ===== src/Payment/Webhooks/Duplicates.antt =====
-- Repeated deliveries of a webhook.
use pactra.Base.{
  Text, Moment, ◌≡◌, refl, ◌⊎◌, inl, inr, Bool, true, ◌==◌, Option, none, some, List, is_some,
  Bool-cases, Option-cases, find, update_where, arith,
}
use pactra.Base.Tables.{updated, find-update_where}
use pactra.Action.{Action, lift, ◌>>=◌}
use pactra.Action.Follows.{IsPreorder, Follows, follows_rules}
use pactra.Payment.Held
use pactra.Payment.Held.{Held}
use pactra.Payment.State.{PaymentIntentState}
use pactra.Payment.Rows.{PaymentIntentRow}
use pactra.Payment.Tables.{Tables, Untouched, Untouched-refl}
use pactra.Payment.Webhooks.Events.{
  VerifiedWebhookEvent, Verification, verified, refused, WebhookProvider, WebhookEventRow,
  same_event,
}
use pactra.Payment.Webhooks.Deliver.{
  Delivery, WebhookOutcome, holding, processed, mark_processed, keep_ambiguous, observe_again,
  ignore_out_of_order, move_mission, perform, apply_event, insert_event, deliver,
}
use pactra.Payment.Webhooks.Handle.{
  is_linked, evidence_matches, on_intent, duplicate_delivery, fresh, accept, admit, handle_webhook,
  checked,
}

-- The event is in the table.
abbrev pub Recorded : VerifiedWebhookEvent → List WebhookEventRow → Type 0
Recorded event rows = is_some (find (same_event event) rows) ≡ true

-- What is in the table stays there.
record Records (event : VerifiedWebhookEvent) (d e : Delivery) : Type 0 where
  stays : Recorded event d.webhook_events → Recorded event e.webhook_events

Records-IsPreorder : (event : VerifiedWebhookEvent) → IsPreorder (Records event)
Records-IsPreorder event = record {
  reflexive = λ d. record { stays = λ h. h };
  transitive = λ d e f p q. record { stays = λ h. q.stays (p.stays h) };
}

is_some-updated :
    {A : Type 0} (q : A → Bool) (f : A → A) (o : Option A) → is_some (updated q f o) ≡ is_some o
is_some-updated q f none = refl
is_some-updated q f (some r) = refl

module _ (event : VerifiedWebhookEvent) where
  holding-Records : {A : Type 0} (m : Action Held A) → Follows (Records event) (holding m)
  unfolding holding
  holding-Records m = record { at = λ d. record { stays = λ h. h } }

  Recorded-update :
      (p : WebhookEventRow → Bool) (f : WebhookEventRow → WebhookEventRow)
      → ((x : WebhookEventRow) → same_event event (f x) ≡ same_event event x)
      → (rows : List WebhookEventRow) → Recorded event rows
      → Recorded event (update_where p f rows)
  Recorded-update p f keeps rows h =
      rw
        (
          find-update_where (same_event event) p f keeps rows,
          is_some-updated p f (find (same_event event) rows),
        )
        h

  mark_processed-Records :
      (id : Text) (now : Moment) (s : Option PaymentIntentState)
      → Follows (Records event) (mark_processed id now s)
  unfolding mark_processed
  mark_processed-Records id now s = record {
    at = λ d. record {
      stays = Recorded-update (λ e. e.id == id) (processed now s) (λ x. refl) d.webhook_events;
    };
  }

  move_mission-Records : (t : PaymentIntentState) → Follows (Records event) (move_mission t)
  unfolding move_mission
  move_mission-Records PaymentIntentState.succeeded = holding-Records _
  move_mission-Records PaymentIntentState.failed_terminal = holding-Records _
  move_mission-Records _ = search (follows_rules, Records-IsPreorder)

  apply_event-Records :
      (id : Text) (now : Moment) → Follows (Records event) (apply_event id event now)
  unfolding apply_event keep_ambiguous observe_again ignore_out_of_order perform
  apply_event-Records id now =
      search
        (
          follows_rules, Records-IsPreorder, holding-Records, mark_processed-Records,
          move_mission-Records,
        )
        depth 16

  -- The delivery begins with the insert.
  deliver-Recorded :
      (id : Text) (now : Moment) (d : Delivery)
      → Recorded event (deliver id event now d).1.webhook_events
  unfolding deliver ◌>>=◌ insert_event holding Held.append_event
  deliver-Recorded id now d = ((apply_event-Records id now).at _).stays (ground arith)

duplicate_delivery-Untouched :
    (intent : PaymentIntentRow) (event : VerifiedWebhookEvent) (t : Tables)
    → Untouched t (duplicate_delivery intent event t).1
unfolding duplicate_delivery ◌>>=◌
duplicate_delivery-Untouched intent event t = record {
  intents = refl;
  missions = refl;
  outbox = refl;
  webhook_events = refl;
  authorizations = refl;
}

module _ (p : WebhookProvider) (event : VerifiedWebhookEvent) where
  -- An event that is in the table changes nothing.
  admit-again :
      (now : Moment) (t : Tables)
      → Recorded event t.webhook_events
      → Untouched t (admit p event now t).1
  unfolding admit accept ◌>>=◌
  admit-again now t seen = elim (Bool-cases (event.provider == p.name)) [
    | inr other ↦ rw other (Untouched-refl t)
    | inl ours ↦ rw ours (elim (Option-cases (find (is_linked event) t.intents)) [
      | inl unknown ↦ rw unknown (Untouched-refl t)
      | inr (intent, found) ↦ rw found (elim (Bool-cases (evidence_matches event intent)) [
        | inr contradicts ↦ rw contradicts (Untouched-refl t)
        | inl agrees ↦ rw (agrees, seen) (duplicate_delivery-Untouched intent event t)
      ])
    ])
  ]

  accepted-Recorded :
      (intent : PaymentIntentRow) (now : Moment) (t : Tables)
      → Recorded event
          ((fresh >>= λ id. on_intent intent (deliver id event now)) t).1.webhook_events
  unfolding fresh on_intent ◌>>=◌
  accepted-Recorded intent now t = deliver-Recorded event t.next_uuid now _

  -- A first delivery is recorded, or is refused without a trace, now and later.
  admit-first :
      (now : Moment) (t : Tables)
      → Recorded event (admit p event now t).1.webhook_events
        ⊎ (((admit p event now t).1 ≡ t) × ((later : Moment) → (admit p event later t).1 ≡ t))
  unfolding admit accept ◌>>=◌
  admit-first now t = elim (Bool-cases (event.provider == p.name)) [
    | inr other ↦ inr (rw other refl, λ later. rw other refl)
    | inl ours ↦ rw ours (elim (Option-cases (find (is_linked event) t.intents)) [
      | inl unknown ↦ inr (rw unknown refl, λ later. rw unknown refl)
      | inr (intent, found) ↦ rw found (elim (Bool-cases (evidence_matches event intent)) [
        | inr contradicts ↦ inr (rw contradicts refl, λ later. rw contradicts refl)
        | inl agrees ↦ inl (
            rw agrees (elim (Bool-cases (is_some (find (same_event event) t.webhook_events))) [
              | inl seen ↦
                  rw (seen, (duplicate_delivery-Untouched intent event t).webhook_events) seen
              | inr unseen ↦ rw unseen (accepted-Recorded intent now t)
            ]))
      ])
    ])
  ]

  admit-twice :
      (now later : Moment) (t : Tables)
      → Untouched (admit p event now t).1 (admit p event later (admit p event now t).1).1
  admit-twice now later t = elim (admit-first now t) [
    | inl recorded ↦ admit-again later _ recorded
    | inr (same, refuses) ↦ rw (same, refuses later) (Untouched-refl t)
  ]

-- A webhook that is delivered a second time, at any later moment, right after the first delivery,
-- whatever became of that one, changes no payment, no mission, no authorization, no outbox event
-- and no recorded event.
pub handle_webhook-twice :
    (p : WebhookProvider) (body signature : Text) (id : Option Text) (now later : Moment)
    (t : Tables)
    → Untouched
        (handle_webhook p body signature id now t).1
        (handle_webhook p body signature id later (handle_webhook p body signature id now t).1).1
unfolding handle_webhook ◌>>=◌
handle_webhook-twice p body signature id now later t = go (p.verify_webhook body signature id)
  where
    handled : Verification → Moment → Action Tables WebhookOutcome
    handled v moment = lift (checked v) >>= λ event. admit p event moment

    go : (v : Verification) → Untouched (handled v now t).1 (handled v later (handled v now t).1).1
    go (verified event) = admit-twice p event now later t
    go (refused reason) = Untouched-refl t
