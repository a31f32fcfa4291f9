-- ===== src/Kernel/Capability/Duties.antt =====
-- The duties of the principals (services/security_kernel/capability_registry.py).
use pactra.Base.{◌≡◌, ◌≢◌, true, false, arith, if◌then◌else◌}
use pactra.Domain.{Failure}
use pactra.Action.{ok, raised, ◌>>=◌}
use pactra.Kernel.Capability.{
  Capability, CapabilitySet, payment_execute, refund_execute, policy_modify, authorization_issue,
  merchant_modify, security_kernel, payment_executor, permits, capabilities_for, capset_eq,
  enforce_registered,
}

-- What the guard answers is the registry's grant, if the presented set is the registry's.
guard_eq :
    {S : Type 0} (cs : CapabilitySet) (k : Capability) (s : S)
    → enforce_registered cs k s ≡ (
      if capset_eq cs (capabilities_for cs.principal)
          then (if permits (capabilities_for cs.principal) k
              then ok tt
              else raised Failure.capability_denied)
          else raised Failure.capability_denied,
      s,
    )
unfolding enforce_registered ◌>>=◌
guard_eq cs k s = ground arith

registry-issue :
    (cs : CapabilitySet)
    → permits (capabilities_for cs.principal) authorization_issue ≡ true
    → cs.principal ≡ security_kernel
unfolding permits capabilities_for
registry-issue cs h = ground arith

registry-execute :
    (cs : CapabilitySet)
    → permits (capabilities_for cs.principal) payment_execute ≡ true
    → cs.principal ≡ payment_executor
unfolding permits capabilities_for
registry-execute cs h = ground arith

granted :
    {S : Type 0} (cs : CapabilitySet) (k : Capability) (s : S)
    → (enforce_registered cs k s).0 ≡ ok tt
    → permits (capabilities_for cs.principal) k ≡ true
granted cs k s h = ground (arith, guard_eq cs k s)

refused :
    {S : Type 0} (cs : CapabilitySet) (k : Capability) (s : S)
    → permits (capabilities_for cs.principal) k ≡ false
    → (enforce_registered cs k s).0 ≡ raised Failure.capability_denied
refused cs k s h = ground (arith, guard_eq cs k s)

-- Whatever grants two capability sets claim: if one passes the guard for issuing authorizations
-- and one the guard for executing payments, the first names the security kernel and the second
-- the payment executor, so they are not one principal.
pub enforce_registered-duties :
    {S T : Type 0} (issuer executor : CapabilitySet) (s : S) (t : T)
    → (enforce_registered issuer authorization_issue s).0 ≡ ok tt
    → (enforce_registered executor payment_execute t).0 ≡ ok tt
    → (issuer.principal ≡ security_kernel)
      × (executor.principal ≡ payment_executor)
      × (issuer.principal ≢ executor.principal)
enforce_registered-duties issuer executor s t i e =
    let p = registry-issue issuer (granted issuer authorization_issue s i) in
    let q = registry-execute executor (granted executor payment_execute t e) in
    (p, q, λ same. omega arith)

registry-nobody :
    (cs : CapabilitySet)
    → (permits (capabilities_for cs.principal) refund_execute ≡ false)
      × (permits (capabilities_for cs.principal) policy_modify ≡ false)
      × (permits (capabilities_for cs.principal) merchant_modify ≡ false)
unfolding permits capabilities_for
registry-nobody cs = ground arith

-- The guard refuses refunds, changes of the policy and changes of the merchants to every
-- capability set, whatever grants it claims.
pub enforce_registered-nobody :
    {S : Type 0} (cs : CapabilitySet) (s : S)
    → ((enforce_registered cs refund_execute s).0 ≡ raised Failure.capability_denied)
      × ((enforce_registered cs policy_modify s).0 ≡ raised Failure.capability_denied)
      × ((enforce_registered cs merchant_modify s).0 ≡ raised Failure.capability_denied)
enforce_registered-nobody cs s =
    let n = registry-nobody cs in
    (
      refused cs refund_execute s n.0,
      refused cs policy_modify s n.1,
      refused cs merchant_modify s n.2,
    )
