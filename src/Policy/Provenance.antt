-- ===== src/Policy/Provenance.antt =====
-- Values with their provenance (packages/schemas/provenance.py) and the authority lattice
-- (services/security_kernel/authority.py).
use pactra.Base.{ℕ, Text, Bool, true, false, leb, ltb, Option, none, some, if◌then◌else◌}

pub data AuthorityLevel : Type 0 where
  merchant_data agent_proposal trusted_internal_service : AuthorityLevel
  authorization system_security_policy user_policy : AuthorityLevel

abbrev pub level : AuthorityLevel → ℕ
level merchant_data = 10
level agent_proposal = 20
level trusted_internal_service = 30
level authorization = 40
level system_security_policy = 50
level user_policy = 60

pub data TrustLevel : Type 0 where
  authoritative trusted untrusted : TrustLevel

-- The texts of the sources, by what they are formatted from.
pub data Source : Type 0 where
  merchant merchant_identity merchant_registry policy_field : Text → Source

pub record Provenanced (A : Type 0) : Type 0 where
  pub value : A
  pub source : Source
  pub authority : AuthorityLevel
  pub trust : TrustLevel
  pub tainted : Bool
  pub transformed : Bool

module _ {A : Type 0} where
  -- The constructors of provenance.py, the level, the trust and the taint being theirs.
  abbrev pub authoritative_value : A → Source → Provenanced A
  authoritative_value a s = record {
    value = a;
    source = s;
    authority = user_policy;
    trust = authoritative;
    tainted = false;
    transformed = false;
  }

  abbrev pub system_value : A → Source → Provenanced A
  system_value a s = record {
    value = a;
    source = s;
    authority = system_security_policy;
    trust = trusted;
    tainted = false;
    transformed = false;
  }

  abbrev pub trusted_value : A → Source → Provenanced A
  trusted_value a s = record {
    value = a;
    source = s;
    authority = trusted_internal_service;
    trust = trusted;
    tainted = false;
    transformed = false;
  }

  abbrev pub untrusted_value : A → Source → Provenanced A
  untrusted_value a s = record {
    value = a;
    source = s;
    authority = merchant_data;
    trust = untrusted;
    tainted = true;
    transformed = false;
  }

-- `Provenanced.map`: taint is sticky.
abbrev pub map_value : {A B : Type 0} → (A → B) → Provenanced A → Provenanced B
map_value f p = record {
  value = f p.value;
  source = p.source;
  authority = p.authority;
  trust = p.trust;
  tainted = p.tainted;
  transformed = true;
}

abbrev pub can_write : AuthorityLevel → AuthorityLevel → Bool
can_write source target = leb (level target) (level source)

-- `merge_keep_higher`; none is AuthorityEscalation.
unfoldable pub merge_keep_higher :
    {A : Type 0} → Provenanced A → Provenanced A → Option (Provenanced A)
merge_keep_higher current incoming =
    if ltb (level incoming.authority) (level current.authority) then none else some incoming
