-- ===== src/Payment/Executor/Fence.antt =====
-- The one-way create fence inside one dispatch.
use pactra.Base.{
  Moment, ◌≡◌, refl, inl, inr, Bool, true, false, none, some, arith, if◌then◌else◌, Bool-cases,
  Option-cases,
}
use pactra.Action.{ok, Action, pure, ◌>>=◌, >>=-ok}
use pactra.Action.Follows.{Follows, Follows-bind, Follows-if}
use pactra.Kernel.Capability.{CapabilitySet, Capability, enforce_registered}
use pactra.Kernel.Transaction.{Crypto}
use pactra.Payment.State.{provider_pending, state_eq, is_terminal}
use pactra.Payment.State.Reach.{here}
use pactra.Payment.Rows.{PaymentIntentRow, PaymentProvider}
use pactra.Payment.Executor.Session.{Session, DispatchResult, update_intent}
use pactra.Payment.Executor.Recover.{recover_fenced_create}
use pactra.Payment.Executor.Dispatch.{
  fence_open, acquire_provider_create_fence, behind_fence, prepare_create, must_recover,
  already_terminal, already_pending, Opening, finished, committed, start_create, choose_path,
  open_dispatch, relock, close_dispatch, dispatch_create,
}
use pactra.Payment.Executor.Moves.{
  RowMoves, RowMoves-refl, Keeps, Keeps-IsPreorder, update_intent-Keeps,
}
use pactra.Payment.Executor.Keeping.{
  keeps_rules, verify_intent_authorization-Keeps, validate_provider_route-Keeps,
}
use pactra.Payment.Executor.Recovering.{requeue_retryable-Keeps, recover_fenced_create-Keeps}
use pactra.Payment.Executor.Creating.{Spends, Keeps-Spends, Spends-after, search_and_create-Spends}

fence_moves :
    (now : Moment) (i : PaymentIntentRow)
    → RowMoves i (if fence_open i then record i { provider_create_fenced_at = some now } else i)
fence_moves now i = elim (Bool-cases (fence_open i)) [
  | inl open_now ↦ rw open_now (record {
    same = refl;
    path = here;
    fence = λ a e. absurd (ground arith);
    ambiguity = λ a e. e;
    linked = λ k e. e;
  })
  | inr shut ↦ rw shut (RowMoves-refl i)
]

acquire-Keeps : (now : Moment) → Follows Keeps (acquire_provider_create_fence now)
unfolding acquire_provider_create_fence
acquire-Keeps now = search (keeps_rules, update_intent-Keeps, fence_moves) depth 8

prepare_create-Keeps : (c : Crypto) (now : Moment) → Follows Keeps (prepare_create c now)
unfolding prepare_create
prepare_create-Keeps c now =
    search (keeps_rules, requeue_retryable-Keeps, verify_intent_authorization-Keeps) depth 10

pub enforce-Keeps :
    (caps : CapabilitySet) (k : Capability) → Follows Keeps (enforce_registered caps k)
unfolding enforce_registered
enforce-Keeps caps k = search keeps_rules

pub already_terminal-Keeps : (now : Moment) → Follows Keeps (already_terminal now)
unfolding already_terminal
already_terminal-Keeps now = search keeps_rules depth 8

already_pending-Keeps : (now : Moment) → Follows Keeps (already_pending now)
unfolding already_pending
already_pending-Keeps now = search keeps_rules depth 8

module _ (c : Crypto) (p : PaymentProvider) (now : Moment) where
  -- A dispatch that did not acquire the fence goes on, whatever the provider answers, without
  -- creating a payment: it moves the intent along permitted transitions only, and never clears
  -- the fence, the ambiguity or the provider's reference, nor changes what is to be paid.
  pub behind_fence-loser : Follows Keeps (behind_fence c p false now)
  unfolding behind_fence
  behind_fence-loser =
      search (keeps_rules, validate_provider_route-Keeps, recover_fenced_create-Keeps) depth 10

  -- The one that did creates at most once.
  pub behind_fence-winner : Follows Spends (behind_fence c p true now)
  unfolding behind_fence
  behind_fence-winner = Spends-after _ _ (validate_provider_route-Keeps p) λ _.
      Spends-after _ _ (search keeps_rules) λ i. Spends-after _ _ (search keeps_rules) λ _.
        Follows-if _ _ _ (Keeps-Spends _ (recover_fenced_create-Keeps c p now)) (
          Spends-after _ _ (verify_intent_authorization-Keeps c now)
            λ _. search_and_create-Spends c p now)

  module _ (caps : CapabilitySet) (fenced : p.create_retries_are_idempotent ≡ false) where
    start_create-Keeps : Follows Keeps (start_create c p now)
    unfolding start_create
    start_create-Keeps =
        Follows-bind Keeps-IsPreorder _ _ (prepare_create-Keeps c now)
          λ _. rw fenced (search (keeps_rules, acquire-Keeps) depth 8)

    choose_path-Keeps : (i : PaymentIntentRow) → Follows Keeps (choose_path c p now i)
    unfolding choose_path
    choose_path-Keeps i =
        search
          (
            keeps_rules, already_terminal-Keeps, already_pending-Keeps, recover_fenced_create-Keeps,
            start_create-Keeps,
          )
          depth 14

    -- Up to the commit of the fence, a dispatch to a provider without idempotent creates creates
    -- nothing.
    pub open_dispatch-Keeps : Follows Keeps (open_dispatch c p caps now)
    unfolding open_dispatch
    open_dispatch-Keeps =
        search (keeps_rules, enforce-Keeps, validate_provider_route-Keeps, choose_path-Keeps) depth
          14

  -- What it takes to acquire the fence: it was free, and it is taken.
  abbrev pub Acquires : Session → Session → Type 0
  Acquires s t =
      (s.intent.provider_create_fenced_at ≡ none) × (t.intent.provider_create_fenced_at ≡ some now)

  -- A fence that is free after an action was free before it.
  free_before :
      (i j : PaymentIntentRow)
      → RowMoves i j
      → j.provider_create_fenced_at ≡ none
      → i.provider_create_fenced_at ≡ none
  free_before i j m h = elim (Option-cases i.provider_create_fenced_at) [
    | inl free ↦ free
    | inr (at, taken) ↦ cc (m.fence at taken)
  ]

  abbrev acquire_tail : Action Session Opening
  acquire_tail = acquire_provider_create_fence now >>= λ acquired. pure (committed acquired)

  acquire-Acquires :
      (s : Session) → (acquire_tail s).0 ≡ ok (committed true) → Acquires s (acquire_tail s).1
  unfolding acquire_provider_create_fence ◌>>=◌ update_intent
  acquire-Acquires s h = ground arith

  -- An action that keeps to `Keeps` comes before.
  Acquires-bind :
      {A : Type 0} (m : Action Session A) (f : A → Action Session Opening)
      → Follows Keeps m
      → ((a : A) (t : Session) → (f a t).0 ≡ ok (committed true) → Acquires t (f a t).1)
      → (s : Session) → ((m >>= f) s).0 ≡ ok (committed true)
      → Acquires s ((m >>= f) s).1
  Acquires-bind m f k rest s h =
      let (a, returned, step) = >>=-ok m f s h in
      let t = (m s).1 in
      let acquired = rest a t (rw step at h) in
      rw step (free_before s.intent t.intent (k.at s).moves acquired.0, acquired.1)

  -- What is finished has acquired nothing.
  finished-not_committed :
      (m : Action Session DispatchResult) (s : Session) (b : Bool)
      → ((m >>= λ r. pure (finished r)) s).0 ≡ ok (committed b)
      → ⊥
  unfolding ◌>>=◌
  finished-not_committed m s b h = ground arith

  module _ (caps : CapabilitySet) (fenced : p.create_retries_are_idempotent ≡ false) where
    start_create-Acquires :
        (s : Session)
        → (start_create c p now s).0 ≡ ok (committed true)
        → Acquires s (start_create c p now s).1
    unfolding start_create
    start_create-Acquires =
        Acquires-bind _ _ (prepare_create-Keeps c now) λ _ t. rw fenced (acquire-Acquires t)

    choose_path-Acquires :
        (i : PaymentIntentRow) (s : Session)
        → (choose_path c p now i s).0 ≡ ok (committed true)
        → Acquires s (choose_path c p now i s).1
    unfolding choose_path
    choose_path-Acquires i s h = elim (Bool-cases (is_terminal i.state)) [
      | inl t ↦ absurd (finished-not_committed (already_terminal now) s true (rw t at h))
      | inr t ↦ elim (Bool-cases (must_recover p i)) [
        | inl r ↦
            absurd (finished-not_committed (recover_fenced_create c p now) s true (rw (t, r) at h))
        | inr r ↦ elim (Bool-cases (state_eq i.state provider_pending)) [
          | inl q ↦ absurd (finished-not_committed (already_pending now) s true (rw (t, r, q) at h))
          | inr q ↦ rw (t, r, q) (start_create-Acquires s (rw (t, r, q) at h))
        ]
      ]
    ]

    -- With a provider whose creates are not idempotent, a dispatch that goes on past the commit
    -- as the holder of the fence found it free, and has taken it at this instant.
    pub open_dispatch-Acquires :
        (s : Session)
        → (open_dispatch c p caps now s).0 ≡ ok (committed true)
        → Acquires s (open_dispatch c p caps now s).1
    unfolding open_dispatch
    open_dispatch-Acquires = Acquires-bind _ _ (enforce-Keeps caps _) λ _.
        Acquires-bind _ _ (validate_provider_route-Keeps p)
          λ _. Acquires-bind _ _ (search keeps_rules) choose_path-Acquires

    close_dispatch-Spends :
        (others : PaymentIntentRow → PaymentIntentRow)
        → ((i : PaymentIntentRow) → RowMoves i (others i))
        → (opening : Opening) → Follows Spends (close_dispatch c p others now opening)
    unfolding close_dispatch relock
    close_dispatch-Spends others legal (finished r) = Keeps-Spends _ (search keeps_rules)
    close_dispatch-Spends others legal (committed true) =
        Spends-after _ _ (update_intent-Keeps others legal) λ _. behind_fence-winner
    close_dispatch-Spends others legal (committed false) =
        Spends-after _ _ (update_intent-Keeps others legal) λ _. Keeps-Spends _ behind_fence-loser

    -- A whole dispatch to a provider whose creates are not idempotent, whatever other
    -- transactions do to the intent between its two halves as long as they move it as RowMoves
    -- allows: it creates at most one payment, moves the intent along permitted transitions only,
    -- and never clears the fence, the ambiguity or the provider's reference, nor changes what is
    -- to be paid.
    pub dispatch_create-Spends :
        (others : PaymentIntentRow → PaymentIntentRow)
        → ((i : PaymentIntentRow) → RowMoves i (others i))
        → Follows Spends (dispatch_create c p caps others now)
    unfolding dispatch_create
    dispatch_create-Spends others legal =
        Spends-after _ _ (open_dispatch-Keeps caps fenced) (close_dispatch-Spends others legal)
