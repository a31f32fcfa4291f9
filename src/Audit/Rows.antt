-- ===== src/Audit/Rows.antt =====
-- The rows of audit_events (apps/api/db/models.py), the hash of an event
-- (services/audit_ledger/hashing.py) and the append (services/audit_ledger/ledger.py).
use pactra.Base.{
  ℕ, zero, suc, Text, Moment, Bool, true, false, ◌&&◌, Option, none, some, List, [], ◌∷◌, ◌++◌, ◌+◌,
  ◌==◌, leb, if◌then◌else◌,
}
use pactra.Domain.{Payload}
use pactra.Kernel.Transaction.{Characters}

abbrev pub hash_hex_length : ℕ
hash_hex_length = 64

abbrev pub repeat : ℕ → ℕ → Characters
repeat zero x = []
repeat (suc k) x = x ∷ repeat k x

abbrev pub genesis_hash : Characters
genesis_hash = repeat 64 b'0'

abbrev pub chars_eq : Characters → Characters → Bool
chars_eq [] [] = true
chars_eq [] (y ∷ ys) = false
chars_eq (x ∷ xs) [] = false
chars_eq (x ∷ xs) (y ∷ ys) = x == y && chars_eq xs ys

-- The columns of an event. A stored payload is JSON, and need not be an object.
pub data Stored : Type 0 where
  object : Payload → Stored
  not_object : Text → Stored

pub record AuditEventRow : Type 0 where
  pub event_id : Text
  pub mission_id : Text
  pub sequence : ℕ
  pub event_type : Text
  pub actor : Text
  pub payload : Stored
  pub previous_hash : Characters
  pub event_hash : Characters
  pub created_at : Moment

-- What `canonical_event_body` makes one text of.
pub record EventBody : Type 0 where
  pub mission_id : Text
  pub sequence : ℕ
  pub event_type : Text
  pub actor : Text
  pub payload : Stored
  pub previous_hash : Characters
  pub created_at : Moment

abbrev pub body_of : AuditEventRow → EventBody
body_of e = record {
  mission_id = e.mission_id;
  sequence = e.sequence;
  event_type = e.event_type;
  actor = e.actor;
  payload = e.payload;
  previous_hash = e.previous_hash;
  created_at = e.created_at;
}

-- `json.dumps`, as canonical_json calls it (sorted keys, and a default that writes as text what JSON
-- cannot), and SHA-256 as lowercase hexadecimal digits are not code of the repository.
pub record EventHash : Type 0 where
  pub dumps : EventBody → Characters
  pub sha256 : Characters → Characters

abbrev pub canonical_event_body : EventHash → EventBody → Characters
canonical_event_body h body = h.dumps body

abbrev pub compute_event_hash : EventHash → EventBody → Characters
compute_event_hash h body = h.sha256 (canonical_event_body h body)

-- `ORDER BY sequence DESC LIMIT 1`, of the events of one mission.
unfoldable pub last_event : Text → List AuditEventRow → Option AuditEventRow
last_event mission_id [] = none
last_event mission_id (e ∷ es) =
    let rest = last_event mission_id es in
    if e.mission_id == mission_id
    then some (elim rest [ none ↦ e | some l ↦ if leb l.sequence e.sequence then e else l ])
    else rest

abbrev pub next_sequence : Option AuditEventRow → ℕ
next_sequence none = 0
next_sequence (some prev) = prev.sequence + 1

abbrev pub next_previous_hash : Option AuditEventRow → Characters
next_previous_hash none = genesis_hash
next_previous_hash (some prev) = prev.event_hash

abbrev pub sealed : EventHash → AuditEventRow → AuditEventRow
sealed hash e = record e { event_hash = compute_event_hash hash (body_of e) }

-- The row that an append adds after the last event of its mission; `event_id` is the result of
-- `uuid4`, and `created_at` of `utcnow`.
unfoldable pub new_row :
    EventHash → Text → Text → Text → Text → Stored → Moment → Option AuditEventRow → AuditEventRow
new_row hash event_id mission_id event_type actor payload created_at prev = sealed hash (record {
  event_id = event_id;
  mission_id = mission_id;
  sequence = next_sequence prev;
  event_type = event_type;
  actor = actor;
  payload = payload;
  previous_hash = next_previous_hash prev;
  event_hash = [];
  created_at = created_at;
})

-- `append_event`
unfoldable pub append_event :
    EventHash
    → Text
    → Text
    → Text
    → Text
    → Stored
    → Moment
    → List AuditEventRow
    → List AuditEventRow
unfolding last_event new_row
append_event hash event_id mission_id event_type actor payload created_at rows =
    rows
    ++ new_row hash event_id mission_id event_type actor payload created_at
        (last_event mission_id rows)
      ∷ []
