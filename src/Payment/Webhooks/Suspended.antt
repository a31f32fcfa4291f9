-- ===== src/Payment/Webhooks/Suspended.antt =====
-- Webhooks for a payment for which several matching payments were seen at the provider.
use pactra.Base.{Text, Moment, refl, inl, inr, is_some, Bool-cases, some}
use pactra.Domain.{ReasonCode}
use pactra.Action.{◌>>=◌}
use pactra.Action.Follows.{IsPreorder, Follows, follows_rules}
use pactra.Payment.Held
use pactra.Payment.Rows.{PaymentIntentRow}
use pactra.Payment.Webhooks.Events.{VerifiedWebhookEvent}
use pactra.Payment.Webhooks.Deliver.{holding, keep_ambiguous, apply_event, deliver}
use pactra.Payment.Webhooks.Moves.{
  Under, Under-IsPreorder, append_event-Under, mark_processed-Under, insert_event-Under,
  update_intent-Under,
}
use pactra.Payment.Reconciliation.Ambiguous.{Suspended, Suspended-IsPreorder}

UnderSuspended : IsPreorder (Under Suspended)
UnderSuspended = Under-IsPreorder Suspended-IsPreorder

note_ambiguity-Suspended :
    (i : PaymentIntentRow)
    → Suspended i (record i { last_reason_code = some ReasonCode.provider_ambiguity })
note_ambiguity-Suspended i h = record { seen = h; state = inl refl; linked = refl }

change-Suspended :
    (f : PaymentIntentRow → PaymentIntentRow)
    → ((i : PaymentIntentRow) → Suspended i (f i))
    → Follows (Under Suspended) (holding (Held.update_intent f))
change-Suspended = update_intent-Under Suspended-IsPreorder

ruleset suspended_rules = (
  follows_rules, Suspended-IsPreorder, UnderSuspended, append_event-Under, mark_processed-Under,
  insert_event-Under, change-Suspended, note_ambiguity-Suspended,
)

module _ (id : Text) (event : VerifiedWebhookEvent) (now : Moment) where
  keep_ambiguous-Suspended : Follows (Under Suspended) (keep_ambiguous id event now)
  unfolding keep_ambiguous
  keep_ambiguous-Suspended = search suspended_rules depth 10

  apply_event-Suspended : Follows (Under Suspended) (apply_event id event now)
  unfolding apply_event ◌>>=◌
  apply_event-Suspended = record {
    at = λ d. elim (Bool-cases (is_some d.held.intent.provider_ambiguity_observed_at)) [
      | inl seen ↦ rw seen (keep_ambiguous-Suspended.at d)
      | inr unseen ↦ record { rows = λ e. absurd (cc) }
    ];
  }

  -- The delivery of a verified event about an intent whose provider ambiguity has been observed,
  -- whatever the event says, keeps the observation, links nothing, and settles nothing: the
  -- intent stays in its state or is in PROVIDER_PENDING.
  pub deliver-Suspended : Follows (Under Suspended) (deliver id event now)
  unfolding deliver
  deliver-Suspended = search (suspended_rules, apply_event-Suspended) depth 10
