-- ===== src/Tests/Ledger.antt =====
-- The audit ledger on concrete data.
use mathlib.Core.List.{Permᴰ}
use pactra.Kernel.Transaction.{Characters}
use pactra.Base.{
  ◌↔◌, ◌≡◌, refl, true, false, List, [], ◌∷◌, length, ◌==◌, if◌then◌else◌, Bool-cases, inl, inr,
}
use pactra.Audit.Rows.{
  EventBody, EventHash, Stored, AuditEventRow, genesis_hash, repeat, append_event, last_event,
  new_row, compute_event_hash,
}
use pactra.Audit.Verify.{is_hash_shaped, is_structured, ordered, verify_events, verify_from}
use pactra.Audit.Contents.{
  IsChain, verify_events-IsChain, head, Distinguishes, AllSame, verify_events-agree,
}
use pactra.Audit.Appends.{Entry, append_all, append_all-verifies}

-- A toy hash, which sees the actor only.
abbrev digest_of : Characters → Characters
digest_of [] = repeat 64 b'0'
digest_of (x ∷ xs) = if x == 1 then repeat 64 b'1' else repeat 64 b'2'

abbrev hash : EventHash
hash = record { dumps = λ (b : EventBody). b.actor ∷ []; sha256 = digest_of }

hash-shaped : (b : EventBody) → is_hash_shaped (compute_event_hash hash b) ≡ true
unfolding is_hash_shaped
hash-shaped b = elim (Bool-cases (b.actor == 1)) [ inl e ↦ rw e refl | inr e ↦ rw e refl ]

abbrev entries : List Entry
entries =
    record { event_id = 70; event_type = 3; actor = 1; payload = []; created_at = 100 }
    ∷ record { event_id = 60; event_type = 4; actor = 2; payload = []; created_at = 120 }
    ∷ []

append_all-verifies_example : (verify_events hash 5 (append_all hash 5 entries [])).valid ≡ true
append_all-verifies_example = append_all-verifies hash hash-shaped 5 entries refl

abbrev first : AuditEventRow
first = record {
  event_id = 70;
  mission_id = 5;
  sequence = 0;
  event_type = 3;
  actor = 1;
  payload = Stored.object [];
  previous_hash = genesis_hash;
  event_hash = repeat 64 b'1';
  created_at = 100;
}

abbrev second : AuditEventRow
second = record {
  event_id = 60;
  mission_id = 5;
  sequence = 1;
  event_type = 4;
  actor = 2;
  payload = Stored.object [];
  previous_hash = repeat 64 b'1';
  event_hash = repeat 64 b'2';
  created_at = 120;
}

abbrev as_written : List AuditEventRow
as_written = first ∷ second ∷ []

-- The same rows, as another query may return them.
abbrev shuffled : List AuditEventRow
shuffled = second ∷ first ∷ []

appended : append_all hash 5 entries [] ≡ as_written
unfolding append_all append_event last_event new_row
appended = refl

verifies : (verify_events hash 5 as_written).valid ≡ true
unfolding verify_events ordered verify_from is_structured is_hash_shaped
verifies = refl

shuffled-verifies : (verify_events hash 5 shuffled).valid ≡ true
unfolding verify_events ordered verify_from is_structured is_hash_shaped
shuffled-verifies = refl

-- An edited payload is found.
edited : (verify_events hash 5 (record first { actor = 2 } ∷ second ∷ [])).valid ≡ false
unfolding verify_events ordered verify_from is_structured is_hash_shaped
edited = refl

same_length : length (ordered as_written) ≡ length (ordered shuffled)
unfolding ordered
same_length = refl

same_head : head genesis_hash (ordered as_written) ≡ head genesis_hash (ordered shuffled)
unfolding ordered
same_head = refl

no_collision : Distinguishes hash (ordered as_written) (ordered shuffled)
unfolding ordered
no_collision = (λ e. refl, λ e. refl, (λ e. refl, λ e. refl, tt))

verify_events-IsChain_example :
    (verify_events hash 5 shuffled).valid ≡ true
    ↔ (chain : List AuditEventRow) × Permᴰ chain shuffled × IsChain hash 0 (repeat 64 b'0') chain
verify_events-IsChain_example = verify_events-IsChain hash 5 shuffled

verify_events-agree_example : AllSame (ordered as_written) (ordered shuffled)
verify_events-agree_example =
    verify_events-agree hash 5 as_written shuffled verifies shuffled-verifies same_length same_head
      no_collision
