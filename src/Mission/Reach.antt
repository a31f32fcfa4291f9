-- ===== src/Mission/Reach.antt =====
-- What any sequence of permitted transitions of a mission can do.
use pactra.Base.{◌≡◌, ◌⊎◌, inl, inr, ◌||◌, Bool, true, false, arith}
use pactra.Domain.{
  MissionState, created, authorized, payment_pending, payment_succeeded, payment_failed, completed,
}
use pactra.Mission.{can_transition}

abbrev pub is_authorized : MissionState → Bool
is_authorized authorized = true
is_authorized _ = false

abbrev pub is_paying : MissionState → Bool
is_paying payment_pending = true
is_paying payment_succeeded = true
is_paying payment_failed = true
is_paying completed = true
is_paying _ = false

-- A sequence of permitted transitions from CREATED, and whether AUTHORIZED is among its states.
pub data Reach : MissionState → Bool → Type 0 where
  start : Reach created false
  next :
      (t u : MissionState) (b : Bool)
      → Reach t b
      → can_transition t u ≡ true
      → Reach u (b || is_authorized u)

paying-step :
    (t u : MissionState)
    → can_transition t u ≡ true
    → is_paying u ≡ true
    → (is_paying t ≡ true) ⊎ (is_authorized t ≡ true)
unfolding can_transition
paying-step t u k h = ground arith

authorized-recorded : {t : MissionState} {b : Bool} → Reach t b → is_authorized t ≡ true → b ≡ true
authorized-recorded start h = cc
authorized-recorded (next t u b r k) h = ground arith

-- A mission that has come from CREATED, by permitted transitions, to a pending, succeeded or
-- failed payment or to COMPLETED has been AUTHORIZED on the way.
pub payment_needs_authorization :
    {t : MissionState} {b : Bool} → Reach t b → is_paying t ≡ true → b ≡ true
payment_needs_authorization start h = cc
payment_needs_authorization (next t u b r k) h = elim (paying-step t u k h) [
  | inl paying ↦ rw (payment_needs_authorization r paying)
  | inr was ↦ rw (authorized-recorded r was)
]
