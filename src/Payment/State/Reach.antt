-- ===== src/Payment/State/Reach.antt =====
-- What any sequence of permitted transitions of a payment can do.
use pactra.Base.{◌≡◌, refl, true, false, arith}
use pactra.Payment.State.{PaymentIntentState, can_transition, is_terminal}

-- A sequence of permitted transitions.
pub data Reach (s : PaymentIntentState) : PaymentIntentState → Type 0 where
  here : Reach s s
  next : {t u : PaymentIntentState} → Reach s t → can_transition t u ≡ true → Reach s u

is_terminal-stuck : (s t : PaymentIntentState) → is_terminal s ≡ true → can_transition s t ≡ false
unfolding is_terminal can_transition
is_terminal-stuck s t h = ground arith

-- From a terminal state no sequence of permitted transitions leads to another state.
pub terminal_absorbs : {s t : PaymentIntentState} → is_terminal s ≡ true → Reach s t → t ≡ s
terminal_absorbs h here = refl
terminal_absorbs h (next {t} {u} r k) = cc (is_terminal-stuck t u (rw (terminal_absorbs h r) h), k)
