-- ===== src/Kernel/Capability.antt =====
-- The capability firewall (services/security_kernel/capability.py and capability_registry.py,
-- packages/schemas/capability.py).
pub mod Duties
use pactra.Base.{
  ⊤, ℕ, Text, Bool, true, false, not, ◌&&◌, ◌||◌, List, [], ◌∷◌, map, ◌==◌, contains, if◌then◌else◌,
}
use pactra.Domain.{Failure}
use pactra.Action.{Action, raise_if, ◌>>=◌, ◌>>◌}

pub data Capability : Type 0 where
  catalog_read merchant_discover offer_request offer_rank payment_propose : Capability
  payment_execute refund_execute policy_modify authorization_issue merchant_modify : Capability

abbrev pub index : Capability → ℕ
index catalog_read = 0
index merchant_discover = 1
index offer_request = 2
index offer_rank = 3
index payment_propose = 4
index payment_execute = 5
index refund_execute = 6
index policy_modify = 7
index authorization_issue = 8
index merchant_modify = 9

-- `limits` is a dictionary from the names of limits to amounts.
pub record CapabilitySet : Type 0 where
  pub principal : Text
  pub allow : List Capability
  pub deny : List Capability
  pub limits : List (Text × ℕ)

-- `capability in capabilities`
abbrev pub has : List Capability → Capability → Bool
has capabilities capability = contains (index capability) (map index capabilities)

unfoldable pub permits : CapabilitySet → Capability → Bool
permits capset capability =
    if has capset.deny capability then false else has capset.allow capability

unfoldable pub enforce : {S : Type 0} → CapabilitySet → Capability → Action S ⊤
enforce capset capability = raise_if (not (permits capset capability)) Failure.capability_denied

-- The principals' names: "buyer-agent", "security-kernel", "payment-executor".
abbrev pub buyer_agent : Text
buyer_agent = 1

abbrev pub security_kernel : Text
security_kernel = 2

abbrev pub payment_executor : Text
payment_executor = 3

-- The keys "single_transaction_inr" and "daily_inr".
abbrev single_transaction_inr : Text
single_transaction_inr = 1

abbrev daily_inr : Text
daily_inr = 2

abbrev pub buyer_agent_capabilities : Text → CapabilitySet
buyer_agent_capabilities principal = record {
  principal = principal;
  allow = catalog_read ∷ merchant_discover ∷ offer_request ∷ offer_rank ∷ payment_propose ∷ [];
  deny =
      payment_execute ∷ refund_execute ∷ policy_modify ∷ authorization_issue ∷ merchant_modify ∷ [];
  limits = (single_transaction_inr, 4500) ∷ (daily_inr, 10000) ∷ [];
}

abbrev pub security_kernel_capabilities : Text → CapabilitySet
security_kernel_capabilities principal = record {
  principal = principal;
  allow = authorization_issue ∷ payment_propose ∷ [];
  deny = payment_execute ∷ refund_execute ∷ policy_modify ∷ merchant_modify ∷ [];
  limits = [];
}

abbrev pub payment_executor_capabilities : Text → CapabilitySet
payment_executor_capabilities principal = record {
  principal = principal;
  allow = payment_execute ∷ payment_propose ∷ [];
  deny = authorization_issue ∷ refund_execute ∷ policy_modify ∷ merchant_modify ∷ [];
  limits = [];
}

unfoldable pub capabilities_for : Text → CapabilitySet
capabilities_for principal =
    if principal == buyer_agent
    then buyer_agent_capabilities principal
    else if principal == security_kernel
    then security_kernel_capabilities principal
    else if principal == payment_executor
    then payment_executor_capabilities principal
    else record { principal = principal; allow = []; deny = []; limits = [] }

-- Two sets have the same members.
subset : List Capability → List Capability → Bool
subset [] ys = true
subset (x ∷ xs) ys = has ys x && subset xs ys

has_limit : Text × ℕ → List (Text × ℕ) → Bool
has_limit e [] = false
has_limit e (l ∷ ls) = (e.0 == l.0 && e.1 == l.1) || has_limit e ls

limits_within : List (Text × ℕ) → List (Text × ℕ) → Bool
unfolding has_limit
limits_within [] ls = true
limits_within (e ∷ es) ls = has_limit e ls && limits_within es ls

-- `capset == authoritative`: equal principals, sets with the same members, equal dictionaries.
unfoldable pub capset_eq : CapabilitySet → CapabilitySet → Bool
unfolding subset limits_within
capset_eq a b =
    a.principal == b.principal
    && subset a.allow b.allow
    && subset b.allow a.allow
    && subset a.deny b.deny
    && subset b.deny a.deny
    && limits_within a.limits b.limits
    && limits_within b.limits a.limits

unfoldable pub enforce_registered : {S : Type 0} → CapabilitySet → Capability → Action S ⊤
unfolding capabilities_for capset_eq enforce
enforce_registered capset capability = do
  let authoritative = capabilities_for capset.principal
  raise_if (not (capset_eq capset authoritative)) Failure.capability_denied
  enforce authoritative capability
