-- ===== src/Audit/Contents.antt =====
-- What a verified set of events is (services/audit_ledger/verify.py and hashing.py), in terms of the
-- columns alone.
use mathlib.Core.List.{Permᴰ}
use pactra.Base.{
  ◌↔◌, ⊤, ℕ, suc, Text, ◌≡◌, ◌≢◌, refl, sym, ap, ◌∙◌, ◌≤◌, ◌⊎◌, inl, inr, true, ◌&&◌, Option, none,
  some, List, [], ◌∷◌, arith, leb, length, Bool-cases,
}
use pactra.Domain.{Payload}
use pactra.Kernel.Transaction.{Characters}
use pactra.Audit.Rows.{
  Stored, object, not_object, AuditEventRow, EventHash, EventBody, genesis_hash, repeat,
}
use pactra.Audit.Verify.{
  all_hex, is_hash_shaped, is_object, is_structured, link, ordered, verify_events,
}
use pactra.Audit.Chain.{Linked, verify_from_sound, verify_from_complete}
use pactra.Audit.Order.{ordered-Perm, ordered-Perm-eq, Linked-Distinct}
use pactra.Audit.Appends.{ordered_chain}

-- Lowercase hexadecimal digits.
abbrev pub Hex : Characters → Type 0
Hex [] = ⊤
Hex (c ∷ cs) = (((b'0' ≤ c) × (c ≤ b'9')) ⊎ ((b'a' ≤ c) × (c ≤ b'f'))) × Hex cs

-- An event that has the shape of one.
pub record WellFormed (e : AuditEventRow) : Type 0 where
  pub previous_length : length e.previous_hash ≡ 64
  pub previous_hex : Hex e.previous_hash
  pub own_length : length e.event_hash ≡ 64
  pub own_hex : Hex e.event_hash
  pub payload : Payload
  pub stored : e.payload ≡ object payload
  pub typed : e.event_type ≢ 0
  pub acted : e.actor ≢ 0

-- The columns that a hash covers: all but the identifier of the row and the hash.
abbrev pub content : AuditEventRow → EventBody
content e = record {
  mission_id = e.mission_id;
  sequence = e.sequence;
  event_type = e.event_type;
  actor = e.actor;
  payload = e.payload;
  previous_hash = e.previous_hash;
  created_at = e.created_at;
}

-- A chain from a position and the hash before it.
abbrev pub IsChain : EventHash → ℕ → Characters → List AuditEventRow → Type 0
IsChain h i before [] = ⊤
IsChain h i before (e ∷ es) =
    WellFormed e
    × (e.sequence ≡ i)
    × (e.previous_hash ≡ before)
    × (e.event_hash ≡ h.sha256 (h.dumps (content e)))
    × IsChain h (suc i) e.event_hash es

Hex-sound : (cs : Characters) → all_hex cs ≡ true → Hex cs
Hex-sound [] h = tt
Hex-sound (c ∷ cs) h = elim (Bool-cases (leb b'0' c && leb c b'9')) [
  | inl digit ↦ (inl (ground arith, ground arith), Hex-sound cs (ground arith))
  | inr other ↦ (inr (ground arith, ground arith), Hex-sound cs (ground arith))
]

Hex-complete : (cs : Characters) → Hex cs → all_hex cs ≡ true
Hex-complete [] h = refl
Hex-complete (c ∷ cs) (inl (low, high), h) = ground (arith, low, high, Hex-complete cs h)
Hex-complete (c ∷ cs) (inr (low, high), h) = ground (arith, low, high, Hex-complete cs h)

is_object_sound : (s : Stored) → is_object s ≡ true → (p : Payload) × (s ≡ object p)
is_object_sound (object p) h = (p, refl)
is_object_sound (not_object t) h = absurd (cc)

WellFormed-from : (e : AuditEventRow) → is_structured e ≡ true → WellFormed e
unfolding is_structured is_hash_shaped
WellFormed-from e h =
    let (p, stored) = is_object_sound e.payload (ground (arith, h)) in
    record {
      previous_length = ground (arith, h);
      previous_hex = Hex-sound e.previous_hash (ground (arith, h));
      own_length = ground (arith, h);
      own_hex = Hex-sound e.event_hash (ground (arith, h));
      payload = p;
      stored = stored;
      typed = λ z. ground (arith, h, z);
      acted = λ z. ground (arith, h, z);
    }

WellFormed-structured : (e : AuditEventRow) → WellFormed e → is_structured e ≡ true
unfolding is_structured is_hash_shaped
WellFormed-structured e w =
    let p = Hex-complete e.previous_hash w.previous_hex in
    let o = Hex-complete e.event_hash w.own_hex in
    let s : is_object e.payload ≡ true = rw w.stored refl in
    ground (arith, p, o, s, w.previous_length, w.own_length, w.typed, w.acted)

Linked-IsChain :
    (h : EventHash) (i : ℕ) (p : Option AuditEventRow) (es : List AuditEventRow)
    → Linked h i p es
    → IsChain h i (link p) es
Linked-IsChain h i p [] c = tt
Linked-IsChain h i p (e ∷ es) (b, q, l, k, c) =
    (WellFormed-from e b, q, l, k, Linked-IsChain h (suc i) (some e) es c)

IsChain-Linked :
    (h : EventHash) (i : ℕ) (p : Option AuditEventRow) (es : List AuditEventRow)
    → IsChain h i (link p) es
    → Linked h i p es
IsChain-Linked h i p [] c = tt
IsChain-Linked h i p (e ∷ es) (b, q, l, k, c) =
    (WellFormed-structured e b, q, l, k, IsChain-Linked h (suc i) (some e) es c)

-- A set of events verifies if and only if it can be rearranged into a chain: every event has the
-- shape of one (hashes of 64 lowercase hexadecimal digits, an object for a payload, a type and an
-- actor that are not empty), the sequences count up from 0, the first event links to the genesis
-- hash and every other one to the hash of the event before it, and each stored hash is SHA-256 of
-- the JSON of the mission, the sequence, the type, the actor, the payload, the previous hash and the
-- instant of that event.
pub verify_events-IsChain :
    (h : EventHash) (m : Text) (es : List AuditEventRow)
    → (verify_events h m es).valid ≡ true
      ↔ (chain : List AuditEventRow) × Permᴰ chain es × IsChain h 0 (repeat 64 b'0') chain
unfolding verify_events
verify_events-IsChain h m es = (
  λ v. (
    ordered es,
    ordered-Perm es,
    Linked-IsChain h 0 none (ordered es) (verify_from_sound h m 0 none (ordered es) v),
  ),
  λ (chain, p, c).
      let linked = IsChain-Linked h 0 none chain c in
      let same =
        sym (ordered-Perm-eq p (Linked-Distinct h 0 none chain linked))
        ∙ ordered_chain h 0 none chain linked in
      rw same (verify_from_complete h m 0 none chain linked),
)

-- The hash that the next event would link to.
abbrev pub head : Characters → List AuditEventRow → Characters
head before [] = before
head before (e ∷ es) = head e.event_hash es

-- On the events at the same position SHA-256 does not collide, and JSON does not write different
-- contents alike.
abbrev pub Distinguishes : EventHash → List AuditEventRow → List AuditEventRow → Type 0
Distinguishes h [] fs = ⊤
Distinguishes h (e ∷ es) [] = ⊤
Distinguishes h (e ∷ es) (f ∷ fs) =
    (h.sha256 (h.dumps (content e)) ≡ h.sha256 (h.dumps (content f))
      → h.dumps (content e) ≡ h.dumps (content f))
    × (h.dumps (content e) ≡ h.dumps (content f) → content e ≡ content f)
    × Distinguishes h es fs

-- Events that agree in every column but the identifier of the row.
pub record Same (e f : AuditEventRow) : Type 0 where
  pub mission_id : e.mission_id ≡ f.mission_id
  pub sequence : e.sequence ≡ f.sequence
  pub event_type : e.event_type ≡ f.event_type
  pub actor : e.actor ≡ f.actor
  pub payload : e.payload ≡ f.payload
  pub previous_hash : e.previous_hash ≡ f.previous_hash
  pub event_hash : e.event_hash ≡ f.event_hash
  pub created_at : e.created_at ≡ f.created_at

abbrev pub AllSame : List AuditEventRow → List AuditEventRow → Type 0
AllSame [] [] = ⊤
AllSame [] (f ∷ fs) = ⊥
AllSame (e ∷ es) [] = ⊥
AllSame (e ∷ es) (f ∷ fs) = Same e f × AllSame es fs

content-Same :
    (e f : AuditEventRow) → content e ≡ content f → e.event_hash ≡ f.event_hash → Same e f
content-Same e f h k = record {
  mission_id = ap (λ (b : EventBody). b.mission_id) h;
  sequence = ap (λ (b : EventBody). b.sequence) h;
  event_type = ap (λ (b : EventBody). b.event_type) h;
  actor = ap (λ (b : EventBody). b.actor) h;
  payload = ap (λ (b : EventBody). b.payload) h;
  previous_hash = ap (λ (b : EventBody). b.previous_hash) h;
  event_hash = k;
  created_at = ap (λ (b : EventBody). b.created_at) h;
}

chains_agree :
    (h : EventHash) (i : ℕ) (p q : Characters) (es fs : List AuditEventRow)
    → IsChain h i p es
    → IsChain h i q fs
    → Distinguishes h es fs
    → length es ≡ length fs
    → head p es ≡ head q fs
    → (p ≡ q) × AllSame es fs
chains_agree h i p q [] [] c d apart n t = (t, tt)
chains_agree h i p q [] (f ∷ fs) c d apart n t = absurd (omega (arith, n))
chains_agree h i p q (e ∷ es) [] c d apart n t = absurd (omega (arith, n))
chains_agree h i p q (e ∷ es) (f ∷ fs) (_, _, l, k, c) (_, _, l', k', d) (apart, readable, further)
      n t =
    let (same_hash, same_rest) =
      chains_agree h (suc i) e.event_hash f.event_hash es fs c d further (omega (arith, n)) t in
    let same = content-Same e f (readable (apart (sym k ∙ same_hash ∙ k'))) same_hash in
    (sym l ∙ same.previous_hash ∙ l', (same, same_rest))

-- If two sets of events both verify, have the same number of events and the same last hash, and
-- on the events at the same position SHA-256 does not collide and JSON does not write different
-- contents alike, then in the order of their sequences their events agree, position by position, in
-- the mission, the sequence, the type, the actor, the payload, both hashes and the instant.
pub verify_events-agree :
    (h : EventHash) (m : Text) (xs ys : List AuditEventRow)
    → (verify_events h m xs).valid ≡ true
    → (verify_events h m ys).valid ≡ true
    → length (ordered xs) ≡ length (ordered ys)
    → head genesis_hash (ordered xs) ≡ head genesis_hash (ordered ys)
    → Distinguishes h (ordered xs) (ordered ys)
    → AllSame (ordered xs) (ordered ys)
unfolding verify_events
verify_events-agree h m xs ys v w n t apart =
    let c = Linked-IsChain h 0 none (ordered xs) (verify_from_sound h m 0 none (ordered xs) v) in
    let d = Linked-IsChain h 0 none (ordered ys) (verify_from_sound h m 0 none (ordered ys) w) in
    (chains_agree h 0 genesis_hash genesis_hash (ordered xs) (ordered ys) c d apart n t).1
