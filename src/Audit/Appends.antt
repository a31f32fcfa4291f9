-- ===== src/Audit/Appends.antt =====
-- The log of one mission, append by append (services/audit_ledger/ledger.py).
use pactra.Base.{
  ⊤, ℕ, suc, Text, Moment, ◌≡◌, refl, Bool, true, not, ◌&&◌, Option, none, some, List, [], ◌∷◌,
  ◌++◌, arith, ◌+◌, ◌<◌, ◌==◌, length, sym, ◌∙◌,
}
use pactra.Domain.{Payload}
use pactra.Audit.Rows.{
  genesis_hash, object, AuditEventRow, EventHash, EventBody, body_of, compute_event_hash,
  last_event, new_row, next_previous_hash, append_event, next_sequence,
}
use pactra.Audit.Verify.{is_hash_shaped, is_structured, link, precedes, ordered, verify_events}
use pactra.Audit.Chain.{Linked, verify_from_complete}

-- A chain is in order already.
pub ordered_chain :
    (hash : EventHash) (i : ℕ) (p : Option AuditEventRow) (es : List AuditEventRow)
    → Linked hash i p es
    → ordered es ≡ es
unfolding ordered
ordered_chain hash i p [] c = refl
ordered_chain hash i p (e ∷ []) c = refl
ordered_chain hash i p (e ∷ f ∷ fs) (_, q, _, _, c) =
    let sorted = ordered_chain hash (suc i) (some e) (f ∷ fs) c in
    let (_, next, _, _, _) = c in
    let before : precedes e f ≡ true = ground arith in rw (sorted, before)

-- The calls of `append_event` for one mission.
pub record Entry : Type 0 where
  pub event_id : Text
  pub event_type : Text
  pub actor : Text
  pub payload : Payload
  pub created_at : Moment

unfoldable pub append_all : EventHash → Text → List Entry → List AuditEventRow → List AuditEventRow
append_all hash m [] rows = rows
append_all hash m (x ∷ xs) rows =
    append_all hash m xs
      (append_event hash x.event_id m x.event_type x.actor (object x.payload) x.created_at rows)

-- The last event of a chain, or what came before it.
abbrev last : Option AuditEventRow → List AuditEventRow → Option AuditEventRow
last p [] = p
last p (e ∷ es) = last (some e) es

abbrev AllOf : Text → List AuditEventRow → Type 0
AllOf m [] = ⊤
AllOf m (e ∷ es) = (e.mission_id ≡ m) × AllOf m es

last-sequence :
    (hash : EventHash) (i : ℕ) (e : AuditEventRow) (es : List AuditEventRow)
    → e.sequence ≡ i
    → Linked hash (suc i) (some e) es
    → (l : AuditEventRow) × (last (some e) es ≡ some l) × (l.sequence ≡ i + length es)
last-sequence hash i e [] q c = (e, refl, omega (arith, q))
last-sequence hash i e (f ∷ fs) q (_, q', _, _, c) =
    let (l, there, at) = last-sequence hash (suc i) f fs q' c in (l, there, omega (arith, at))

last_event-step :
    (m : Text) (e : AuditEventRow) (es : List AuditEventRow) (l : AuditEventRow)
    → e.mission_id ≡ m
    → last_event m es ≡ some l
    → e.sequence < l.sequence
    → last_event m (e ∷ es) ≡ some l
unfolding last_event
last_event-step m e es l own there above = rw there (ground (arith, own, above))

-- In a chain of one mission, the last event has the greatest sequence.
last_event-last :
    (hash : EventHash) (m : Text) (i : ℕ) (p : Option AuditEventRow) (es : List AuditEventRow)
    → Linked hash i p es
    → AllOf m es
    → last_event m es ≡ last none es
unfolding last_event
last_event-last hash m i p [] c a = refl
last_event-last hash m i p (e ∷ []) c (a, _) = ground (arith, a)
last_event-last hash m i p (e ∷ f ∷ fs) (_, q, _, _, c) (a, b) =
    let (_, q', _, _, c') = c in
    let (l, there, at) = last-sequence hash (suc i) f fs q' c' in
    let further = last_event-last hash m (suc i) (some e) (f ∷ fs) c b in
    last_event-step m e (f ∷ fs) l a (further ∙ there) (omega (arith, q, at)) ∙ sym there

-- The next event links to a hash.
link-shaped :
    (hash : EventHash) (i : ℕ) (p : Option AuditEventRow) (es : List AuditEventRow)
    → is_hash_shaped (link p) ≡ true
    → Linked hash i p es
    → is_hash_shaped (link (last p es)) ≡ true
unfolding is_structured
link-shaped hash i p [] h c = h
link-shaped hash i p (e ∷ es) h (b, _, _, _, c) =
    link-shaped hash (suc i) (some e) es (ground (arith, b)) c

extended :
    (hash : EventHash) (i : ℕ) (p : Option AuditEventRow) (es : List AuditEventRow)
    (r : AuditEventRow)
    → Linked hash i p es
    → is_structured r ≡ true
    → r.sequence ≡ i + length es
    → r.previous_hash ≡ link (last p es)
    → r.event_hash ≡ compute_event_hash hash (body_of r)
    → Linked hash i p (es ++ r ∷ [])
extended hash i p [] r c b q l k = (b, omega (arith, q), l, k, tt)
extended hash i p (e ∷ es) r (b', q', l', k', c) b q l k =
    (b', q', l', k', extended hash (suc i) (some e) es r c b (omega (arith, q)) l k)

abbrev names : Entry → Bool
names x = not (x.event_type == 0) && not (x.actor == 0)

abbrev pub all_named : List Entry → Bool
all_named [] = true
all_named (x ∷ xs) = names x && all_named xs

module _ (hash : EventHash)
    (shaped : (b : EventBody) → is_hash_shaped (compute_event_hash hash b) ≡ true) (m : Text) where
  next-sequence :
      (es : List AuditEventRow) → Linked hash 0 none es → next_sequence (last none es) ≡ length es
  next-sequence [] c = refl
  next-sequence (e ∷ es) (_, q, _, _, c) =
      let (l, there, at) = last-sequence hash 0 e es q c in rw there (omega (arith, at))

  linked : (prev : Option AuditEventRow) → next_previous_hash prev ≡ link prev
  linked none = refl
  linked (some l) = refl

  genesis-shaped : is_hash_shaped genesis_hash ≡ true
  unfolding is_hash_shaped
  genesis-shaped = refl

  new_row-structured :
      (x : Entry) (prev : Option AuditEventRow)
      → names x ≡ true
      → is_hash_shaped (link prev) ≡ true
      → is_structured
          (new_row hash x.event_id m x.event_type x.actor (object x.payload) x.created_at prev)
        ≡ true
  unfolding is_structured new_row
  new_row-structured x prev named h =
      let before : is_hash_shaped (next_previous_hash prev) ≡ true = rw (linked prev) h in
      rw (before, shaped) (ground (arith, named))

  abbrev append_entry : Entry → List AuditEventRow → List AuditEventRow
  append_entry x es =
      append_event hash x.event_id m x.event_type x.actor (object x.payload) x.created_at es

  -- An append keeps a chain of one mission one.
  append_event-Linked :
      (x : Entry) (es : List AuditEventRow)
      → names x ≡ true
      → Linked hash 0 none es
      → AllOf m es
      → Linked hash 0 none (append_entry x es)
  unfolding append_event new_row
  append_event-Linked x es named c a =
      let here = last_event-last hash m 0 none es c a in
      let shape = link-shaped hash 0 none es genesis-shaped c in
      extended hash 0 none es _ c (new_row-structured x (last_event m es) named (rw here shape))
        (rw here (omega (arith, next-sequence es c))) (rw here (linked (last none es))) refl

  AllOf-append :
      (es : List AuditEventRow) (r : AuditEventRow)
      → AllOf m es
      → r.mission_id ≡ m
      → AllOf m (es ++ r ∷ [])
  AllOf-append [] r a own = (own, tt)
  AllOf-append (e ∷ es) r (h, a) own = (h, AllOf-append es r a own)

  append_event-AllOf :
      (x : Entry) (es : List AuditEventRow) → AllOf m es → AllOf m (append_entry x es)
  unfolding append_event new_row
  append_event-AllOf x es a = AllOf-append es _ a refl

  append_all-Linked :
      (xs : List Entry) (es : List AuditEventRow)
      → all_named xs ≡ true
      → Linked hash 0 none es
      → AllOf m es
      → Linked hash 0 none (append_all hash m xs es)
  unfolding append_all
  append_all-Linked [] es h c a = c
  append_all-Linked (x ∷ xs) es h c a =
      append_all-Linked xs (append_entry x es) (ground (arith, h))
        (append_event-Linked x es (ground (arith, h)) c a) (append_event-AllOf x es a)

  -- With a hash whose results are 64 lowercase hexadecimal digits: whatever is appended to the log of
  -- a mission, each entry with an event type and an actor that are not empty, the chain that
  -- results verifies.
  pub append_all-verifies :
      (xs : List Entry)
      → all_named xs ≡ true
      → (verify_events hash m (append_all hash m xs [])).valid ≡ true
  unfolding verify_events
  append_all-verifies xs h =
      let c = append_all-Linked xs [] h tt tt in
      rw (ordered_chain hash 0 none (append_all hash m xs []) c)
        (verify_from_complete hash m 0 none (append_all hash m xs []) c)
