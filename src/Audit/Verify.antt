-- ===== src/Audit/Verify.antt =====
-- The verification of a chain (services/audit_ledger/verify.py). Not represented are a sequence below
-- zero and an absent instant, which the code reports as malformed: no append writes the one, and the
-- column of the other is not nullable.
use pactra.Base.{
  ℕ, suc, Text, Bool, true, false, not, ◌&&◌, ◌||◌, Option, none, some, List, [], ◌∷◌, ◌==◌, ltb,
  leb, length, if◌then◌else◌,
}
use pactra.Kernel.Transaction.{Characters}
use pactra.Audit.Rows.{
  hash_hex_length, genesis_hash, chars_eq, Stored, object, not_object, AuditEventRow, EventHash,
  body_of, compute_event_hash,
}

pub data AuditReasonCode : Type 0 where
  valid sequence_gap previous_hash_mismatch event_hash_mismatch : AuditReasonCode
  genesis_invalid event_malformed : AuditReasonCode

-- The detail, a text for people, is left out.
pub record AuditVerificationResult : Type 0 where
  pub valid : Bool
  pub mission_id : Text
  pub events_checked : ℕ
  pub first_invalid_sequence : Option ℕ
  pub reason_code : AuditReasonCode
  pub expected_hash : Option Characters
  pub actual_hash : Option Characters

abbrev pub all_hex : Characters → Bool
all_hex [] = true
all_hex (c ∷ cs) = ((leb b'0' c && leb c b'9') || (leb b'a' c && leb c b'f')) && all_hex cs

-- `_is_hash_shaped`
unfoldable pub is_hash_shaped : Characters → Bool
is_hash_shaped value = (length value == hash_hex_length) && all_hex value

abbrev pub is_object : Stored → Bool
is_object (object p) = true
is_object (not_object t) = false

-- `_structural_failure` finds nothing. An empty text is 0.
unfoldable pub is_structured : AuditEventRow → Bool
is_structured e =
    is_hash_shaped e.previous_hash
    && is_hash_shaped e.event_hash
    && is_object e.payload
    && not (e.event_type == 0)
    && not (e.actor == 0)

abbrev refused :
    Text
    → ℕ
    → AuditReasonCode
    → AuditEventRow
    → Option Characters
    → Option Characters
    → AuditVerificationResult
refused mission_id index reason e expected actual = record {
  valid = false;
  mission_id = mission_id;
  events_checked = index;
  first_invalid_sequence = some e.sequence;
  reason_code = reason;
  expected_hash = expected;
  actual_hash = actual;
}

abbrev accepted : Text → ℕ → AuditVerificationResult
accepted mission_id n = record {
  valid = true;
  mission_id = mission_id;
  events_checked = n;
  first_invalid_sequence = none;
  reason_code = AuditReasonCode.valid;
  expected_hash = none;
  actual_hash = none;
}

-- The event before, if there is one, is `ordered[index - 1]`.
abbrev pub link : Option AuditEventRow → Characters
link none = genesis_hash
link (some preceding) = preceding.event_hash

abbrev link_reason : Option AuditEventRow → AuditReasonCode
link_reason none = AuditReasonCode.genesis_invalid
link_reason (some preceding) = AuditReasonCode.previous_hash_mismatch

-- The loop over the ordered events, from a position.
unfoldable pub verify_from :
    EventHash → Text → ℕ → Option AuditEventRow → List AuditEventRow → AuditVerificationResult
unfolding is_structured
verify_from hash m index preceding [] = accepted m index
verify_from hash m index preceding (e ∷ es) =
    let rest = verify_from hash m (suc index) (some e) es in
    let recomputed = compute_event_hash hash (body_of e) in
    if not (is_structured e)
    then refused m index AuditReasonCode.event_malformed e none none
    else if not (e.sequence == index)
    then refused m index AuditReasonCode.sequence_gap e none none
    else if not (chars_eq e.previous_hash (link preceding))
    then refused m index (link_reason preceding) e (some (link preceding)) (some e.previous_hash)
    else if not (chars_eq recomputed e.event_hash)
    then refused m index AuditReasonCode.event_hash_mismatch e (some recomputed) (some e.event_hash)
    else rest

-- The key of the sort, `(sequence, str(event_id))`.
abbrev pub precedes : AuditEventRow → AuditEventRow → Bool
precedes a b = ltb a.sequence b.sequence || (a.sequence == b.sequence && leb a.event_id b.event_id)

abbrev pub insert : AuditEventRow → List AuditEventRow → List AuditEventRow
insert e [] = e ∷ []
insert e (x ∷ xs) = let rest = insert e xs in if precedes e x then e ∷ x ∷ xs else x ∷ rest

unfoldable pub ordered : List AuditEventRow → List AuditEventRow
ordered [] = []
ordered (e ∷ es) = insert e (ordered es)

unfoldable pub verify_events : EventHash → Text → List AuditEventRow → AuditVerificationResult
unfolding ordered verify_from
verify_events hash mission_id events = verify_from hash mission_id 0 none (ordered events)
