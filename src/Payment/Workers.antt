-- ===== src/Payment/Workers.antt =====
-- Any number of workers that dispatch or reconcile one payment, and webhooks about it, interleaved
-- with one another, with crashes and with other transactions (services/payment_executor/executor.py,
-- reconciliation.py and webhooks.py under services/payment_executor/worker.py).
use pactra.Base.{
  ℕ, zero, suc, Text, Moment, ◌+◌, ◌≤◌, ◌<◌, ◌≡◌, ◌≢◌, refl, ◌⊎◌, inl, inr, Bool, true, false, [],
  arith, is_some, Option-cases,
}
use pactra.Action.{ok}
use pactra.Kernel.Capability.{CapabilitySet}
use pactra.Kernel.Transaction.{Crypto}
use pactra.Payment.Rows.{PaymentIntentRow, PaymentProvider}
use pactra.Payment.Executor.Session.{Session}
use pactra.Payment.Webhooks.Events.{VerifiedWebhookEvent}
use pactra.Payment.Webhooks.Deliver.{Delivery, deliver}
use pactra.Payment.Webhooks.Moves.{deliver-moves}
use pactra.Payment.Executor.Dispatch.{behind_fence, committed, open_dispatch}
use pactra.Payment.Executor.Moves.{RowMoves, RowMoves-refl, creates, Keeps}
use pactra.Payment.Reconciliation.Reconcile.{open_reconcile, behind_shut_fence}
use pactra.Payment.Reconciliation.Quiet.{open_reconcile-Keeps, behind_shut_fence-Keeps}
use pactra.Payment.Executor.Fence.{
  behind_fence-loser, behind_fence-winner, open_dispatch-Keeps, open_dispatch-Acquires,
}

-- The durable intent, the calls of `create_payment` that any worker has made, and the workers that
-- have committed the fence and not gone on yet.
pub record World : Type 0 where
  pub intent : PaymentIntentRow
  pub created : ℕ
  pub holders : ℕ

-- A worker begins at the durable row, with no calls made.
pub record Begins (w : World) (s : Session) : Type 0 where
  pub row : s.intent ≡ w.intent
  pub fresh : s.calls ≡ []

-- What a transaction leaves in the database: its row if it commits, the row before it if the worker
-- crashes or the transaction is rolled back. The calls to the provider have been made all the same.
abbrev pub Leaves : PaymentIntentRow → PaymentIntentRow → PaymentIntentRow → Type 0
Leaves before after left = (left ≡ after) ⊎ (left ≡ before)

-- A provider as it answers one transaction: its answers may differ in every other step. It does not
-- deduplicate creates.
pub record Answering : Type 0 where
  pub provider : PaymentProvider
  pub fenced : provider.create_retries_are_idempotent ≡ false

module _ (c : Crypto) where
  pub data Step (w : World) : World → Type 0 where
    -- A worker commits the fence as its holder.
    acquires :
        (a : Answering) (caps : CapabilitySet) (now : Moment) (s : Session)
        → Begins w s
        → (open_dispatch c a.provider caps now s).0 ≡ ok (committed true)
        → Step w (record {
          intent = (open_dispatch c a.provider caps now s).1.intent;
          created = w.created + creates (open_dispatch c a.provider caps now s).1.calls;
          holders = w.holders + 1;
        })
    -- A worker ends or fails before the fence, or commits without having acquired it.
    ends :
        (a : Answering) (caps : CapabilitySet) (now : Moment) (s : Session)
        (left : PaymentIntentRow)
        → Begins w s
        → (open_dispatch c a.provider caps now s).0 ≢ ok (committed true)
        → Leaves w.intent (open_dispatch c a.provider caps now s).1.intent left
        → Step w (record {
          intent = left;
          created = w.created + creates (open_dispatch c a.provider caps now s).1.calls;
          holders = w.holders;
        })
    -- A holder of the fence goes on.
    proceeds :
        (a : Answering) (now : Moment) (s : Session) (left : PaymentIntentRow) (n : ℕ)
        → Begins w s
        → w.holders ≡ suc n
        → Leaves w.intent (behind_fence c a.provider true now s).1.intent left
        → Step w (record {
          intent = left;
          created = w.created + creates (behind_fence c a.provider true now s).1.calls;
          holders = n;
        })
    -- A worker that did not acquire the fence goes on.
    recovers :
        (a : Answering) (now : Moment) (s : Session) (left : PaymentIntentRow)
        → Begins w s
        → Leaves w.intent (behind_fence c a.provider false now s).1.intent left
        → Step w (record {
          intent = left;
          created = w.created + creates (behind_fence c a.provider false now s).1.calls;
          holders = w.holders;
        })
    -- A worker reconciles the intent, up to the commit of the fence or to the end.
    reconciles :
        (a : Answering) (caps : CapabilitySet) (now : Moment) (s : Session)
        (left : PaymentIntentRow)
        → Begins w s
        → Leaves w.intent (open_reconcile c a.provider caps now s).1.intent left
        → Step w (record w {
          intent = left;
          created = w.created + creates (open_reconcile c a.provider caps now s).1.calls;
        })
    -- It goes on behind the fence.
    resumes :
        (a : Answering) (now : Moment) (s : Session) (left : PaymentIntentRow)
        → Begins w s
        → Leaves w.intent (behind_shut_fence c a.provider now s).1.intent left
        → Step w (record w {
          intent = left;
          created = w.created + creates (behind_shut_fence c a.provider now s).1.calls;
        })
    -- A holder dies before it goes on.
    dies : (n : ℕ) → w.holders ≡ suc n → Step w (record w { holders = n })
    -- A webhook about the intent is delivered.
    notified :
        (id : Text) (event : VerifiedWebhookEvent) (now : Moment) (d : Delivery)
        (left : PaymentIntentRow)
        → d.held.intent ≡ w.intent
        → Leaves w.intent (deliver id event now d).1.held.intent left
        → Step w (record w { intent = left })
    -- Another transaction moves the intent as the executor's own actions do.
    other : (row : PaymentIntentRow) → RowMoves w.intent row → Step w (record w { intent = row })

  pub data Steps (w : World) : World → Type 0 where
    here : Steps w w
    next : {u v : World} → Steps w u → Step u v → Steps w v

  -- At most one payment is created or about to be, and then the fence is taken.
  pub record Fenced (w : World) : Type 0 where
    pub one : w.created + w.holders ≤ 1
    pub taken : 0 < w.created + w.holders → is_some w.intent.provider_create_fenced_at ≡ true

  still_taken :
      (i j : PaymentIntentRow)
      → RowMoves i j
      → is_some i.provider_create_fenced_at ≡ true
      → is_some j.provider_create_fenced_at ≡ true
  still_taken i j m h = elim (Option-cases i.provider_create_fenced_at) [
    | inl free ↦ cc
    | inr (at, e) ↦ rw (m.fence at e)
  ]

  -- A transaction that leaves its row or the one before it moves the intent, or leaves it.
  Leaves-from :
      (w : World) (row after left : PaymentIntentRow)
      → row ≡ w.intent
      → RowMoves row after
      → Leaves w.intent after left
      → RowMoves w.intent left
  Leaves-from w row after left same m (inl e) = rw (e, ← same) m
  Leaves-from w row after left same m (inr e) = rw e (RowMoves-refl w.intent)

  Leaves-moves :
      (w : World) (s : Session) (after left : PaymentIntentRow)
      → Begins w s
      → RowMoves s.intent after
      → Leaves w.intent after left
      → RowMoves w.intent left
  Leaves-moves w s after left b = Leaves-from w s.intent after left b.row

  none_of_free : (n : ℕ) {b : Bool} → (0 < n → b ≡ true) → b ≡ false → n ≡ 0
  none_of_free zero h e = refl
  none_of_free (suc n) h e = cc (h (omega arith))

  silent-none : (w : World) (s t : Session) → Begins w s → Keeps s t → creates t.calls ≡ 0
  silent-none w s t b k = rw (k.silent, b.fresh)

  -- A transaction that keeps to `Keeps`, committed or not.
  Keeps-Fenced :
      (w : World) (s t : Session) (left : PaymentIntentRow)
      → Begins w s
      → Keeps s t
      → Leaves w.intent t.intent left
      → Fenced w
      → Fenced (record w { intent = left; created = w.created + creates t.calls })
  Keeps-Fenced w s t left b k l f =
      let none_made = silent-none w s t b k in
      let moved = Leaves-moves w s t.intent left b k.moves l in
      record {
        one = omega (arith, f.one);
        taken = λ h. still_taken w.intent left moved (f.taken (omega arith));
      }

  Step-Fenced : {w v : World} → Step w v → Fenced w → Fenced v
  Step-Fenced {w} (acquires a caps now s b won) f =
      let k = (open_dispatch-Keeps c a.provider now caps a.fenced).at s in
      let none_made = silent-none w s _ b k in
      let (free, taken) = open_dispatch-Acquires c a.provider now caps a.fenced s won in
      let none_before = none_of_free _ f.taken (rw (← b.row, free)) in
      record { one = omega arith; taken = λ h. rw taken }
  Step-Fenced {w} (ends a caps now s left b lost l) f =
      Keeps-Fenced w s _ left b ((open_dispatch-Keeps c a.provider now caps a.fenced).at s) l f
  Step-Fenced {w} (proceeds a now s left n b held l) f =
      let k = (behind_fence-winner c a.provider now).at s in
      let none_before : creates s.calls ≡ 0 = rw b.fresh in
      let moved = Leaves-moves w s _ left b k.moves l in
      record {
        one = omega (arith, f.one, k.once);
        taken = λ h. still_taken w.intent left moved (f.taken (omega arith));
      }
  Step-Fenced {w} (recovers a now s left b l) f =
      Keeps-Fenced w s _ left b ((behind_fence-loser c a.provider now).at s) l f
  Step-Fenced {w} (reconciles a caps now s left b l) f =
      Keeps-Fenced w s _ left b ((open_reconcile-Keeps c a.provider caps now).at s) l f
  Step-Fenced {w} (resumes a now s left b l) f =
      Keeps-Fenced w s _ left b ((behind_shut_fence-Keeps c a.provider now).at s) l f
  Step-Fenced {w} (notified id event now d left row l) f = record {
    one = f.one;
    taken = λ h.
        still_taken w.intent left
          (Leaves-from w d.held.intent _ left row ((deliver-moves id event now).at d).rows l)
          (f.taken h);
  }
  Step-Fenced {w} (dies n held) f = record {
    one = omega (arith, f.one);
    taken = λ h. f.taken (omega arith);
  }
  Step-Fenced {w} (other row m) f = record {
    one = f.one;
    taken = λ h. still_taken w.intent row m (f.taken h);
  }

  Steps-Fenced : {w v : World} → Fenced w → Steps w v → Fenced v
  Steps-Fenced f here = f
  Steps-Fenced f (next r st) = Step-Fenced st (Steps-Fenced f r)

  -- Where creates are not idempotent: from any row of a payment intent, with no
  -- payment created so far and no worker holding the fence, through any sequence of the
  -- relation Step — workers that dispatch or reconcile the intent and webhooks about it, in any
  -- interleaving, crashes, rollbacks, and other transactions that move the row as RowMoves
  -- allows — the provider, whatever it answers in each step, is asked to create at most one
  -- payment.
  pub at_most_one_create :
      (row : PaymentIntentRow) {v : World}
      → Steps (record { intent = row; created = 0; holders = 0 }) v
      → v.created ≤ 1
  at_most_one_create row {v} r =
      let f = Steps-Fenced (record { one = omega arith; taken = λ h. absurd (omega arith) }) r in
      omega (arith, f.one)
