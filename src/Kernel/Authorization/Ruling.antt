-- ===== src/Kernel/Authorization/Ruling.antt =====
-- What the approval scheme of a row shows: the latest policy decision on its mission and policy
-- version (services/security_kernel/authorization.py).
use mathlib.Core.List.{Memᴰ}
use pactra.Base.{
  ◌≤◌, ◌≡◌, refl, sym, ◌⊎◌, inl, inr, true, ◌&&◌, none, some, List, [], ◌∷◌, arith, ◌==◌, ltb,
  Bool-cases, Option-cases,
}
use pactra.Domain.{allow, require_approval, deny, PolicyOutcome}
use pactra.Kernel.Approval.{ApprovalScheme, policy_auto, user_ed25519, legacy_server, scheme_eq}
use pactra.Kernel.Authorization.Rows.{AuthorizationRow, PolicyDecisionRow}
use pactra.Kernel.Authorization.Proof.{
  latest, decisions_for, scheme_for, expected_scheme, scheme_agrees,
}

-- The latest policy decision on a row's mission and policy version asks for the row's scheme.
pub record Ruled (decisions : List PolicyDecisionRow) (row : AuthorizationRow) : Type 0 where
  pub decision : PolicyDecisionRow
  pub made : Memᴰ decision decisions
  pub mission : decision.mission_id ≡ row.mission_id
  pub version : decision.policy_version ≡ row.policy_version
  pub latest :
      (d : PolicyDecisionRow)
      → Memᴰ d decisions
      → d.mission_id ≡ row.mission_id
      → d.policy_version ≡ row.policy_version
      → d.created_at ≤ decision.created_at
  pub scheme :
      ((decision.decision ≡ allow) × (row.approval_scheme ≡ policy_auto))
      ⊎ ((decision.decision ≡ require_approval) × (row.approval_scheme ≡ user_ed25519))

pub scheme_eq_sound : (a b : ApprovalScheme) → scheme_eq a b ≡ true → a ≡ b
scheme_eq_sound policy_auto policy_auto h = refl
scheme_eq_sound user_ed25519 user_ed25519 h = refl
scheme_eq_sound legacy_server legacy_server h = refl
scheme_eq_sound policy_auto user_ed25519 h = absurd (cc)
scheme_eq_sound policy_auto legacy_server h = absurd (cc)
scheme_eq_sound user_ed25519 policy_auto h = absurd (cc)
scheme_eq_sound user_ed25519 legacy_server h = absurd (cc)
scheme_eq_sound legacy_server policy_auto h = absurd (cc)
scheme_eq_sound legacy_server user_ed25519 h = absurd (cc)

Memᴰ-cons :
    {x e : PolicyDecisionRow} {ds : List PolicyDecisionRow} → Memᴰ x (e ∷ ds) → (x ≡ e) ⊎ Memᴰ x ds
Memᴰ-cons (Memᴰ.head same) = inl same
Memᴰ-cons (Memᴰ.tail m) = inr m

-- The latest of a list and of a decision before it.
record Newest (b : PolicyDecisionRow) (ds : List PolicyDecisionRow) (d : PolicyDecisionRow)
    : Type 0 where
  here : Memᴰ d (b ∷ ds)
  first : b.created_at ≤ d.created_at
  rest : (x : PolicyDecisionRow) → Memᴰ x ds → x.created_at ≤ d.created_at

latest-Newest :
    (b : PolicyDecisionRow) (ds : List PolicyDecisionRow) {d : PolicyDecisionRow}
    → latest (some b) ds ≡ some d
    → Newest b ds d
unfolding latest
latest-Newest b [] {d} h =
    let same : b ≡ d = cc in
    record { here = Memᴰ.head (sym same); first = rw same (omega arith); rest = λ x m. elim m [ ] }
latest-Newest b (e ∷ ds) {d} h = elim (Bool-cases (ltb b.created_at e.created_at)) [
  | inl newer ↦
      let k = latest-Newest e ds (rw newer at h) in
      let first = k.first in
      record {
        here = Memᴰ.tail k.here;
        first = ground (arith, newer, first);
        rest = λ x m. elim (Memᴰ-cons m) [ inl same ↦ rw same first | inr n ↦ k.rest x n ];
      }
  | inr older ↦
      let k = latest-Newest b ds (rw older at h) in
      let first = k.first in
      record {
        here = elim (Memᴰ-cons k.here) [
          | inl same ↦ Memᴰ.head same
          | inr n ↦ Memᴰ.tail (Memᴰ.tail n)
        ];
        first = first;
        rest = λ x m. elim (Memᴰ-cons m) [
          | inl same ↦ rw same (ground (arith, older, first))
          | inr n ↦ k.rest x n
        ];
      }
]

decisions_for_sound :
    (row : AuthorizationRow) (ds : List PolicyDecisionRow) {d : PolicyDecisionRow}
    → Memᴰ d (decisions_for row ds)
    → Memᴰ d ds × (d.mission_id ≡ row.mission_id) × (d.policy_version ≡ row.policy_version)
unfolding decisions_for
decisions_for_sound row [] m = elim m [ ]
decisions_for_sound row (e ∷ ds) {d} m =
    elim (Bool-cases (e.mission_id == row.mission_id && e.policy_version == row.policy_version)) [
      | inl hit ↦ elim (Memᴰ-cons (rw hit at m)) [
        | inl same ↦ (Memᴰ.head same, rw same (ground arith), rw same (ground arith))
        | inr n ↦
            let (there, mission, version) = decisions_for_sound row ds n in
            (Memᴰ.tail there, mission, version)
      ]
      | inr miss ↦
          let (there, mission, version) = decisions_for_sound row ds (rw miss at m) in
          (Memᴰ.tail there, mission, version)
    ]

decisions_for_complete :
    (row : AuthorizationRow) (ds : List PolicyDecisionRow) (d : PolicyDecisionRow)
    → Memᴰ d ds
    → d.mission_id ≡ row.mission_id
    → d.policy_version ≡ row.policy_version
    → Memᴰ d (decisions_for row ds)
unfolding decisions_for
decisions_for_complete row [] d m h k = elim m [ ]
decisions_for_complete row (e ∷ ds) d m h k =
    elim (Bool-cases (e.mission_id == row.mission_id && e.policy_version == row.policy_version)) [
      | inl hit ↦ elim (Memᴰ-cons m) [
        | inl same ↦ rw hit (Memᴰ.head same)
        | inr n ↦ rw hit (Memᴰ.tail (decisions_for_complete row ds d n h k))
      ]
      | inr miss ↦ elim (Memᴰ-cons m) [
        | inl same ↦ absurd (ground (arith, rw same at h, rw same at k))
        | inr n ↦ rw miss (decisions_for_complete row ds d n h k)
      ]
    ]

latest-found :
    (ds : List PolicyDecisionRow) {d : PolicyDecisionRow}
    → latest none ds ≡ some d
    → Memᴰ d ds × ((x : PolicyDecisionRow) → Memᴰ x ds → x.created_at ≤ d.created_at)
unfolding latest
latest-found [] h = absurd (cc)
latest-found (e ∷ ds) h =
    let k = latest-Newest e ds h in
    let first = k.first in
    (k.here, λ x m. elim (Memᴰ-cons m) [ inl same ↦ rw same first | inr n ↦ k.rest x n ])

scheme_for-ruling :
    (o : PolicyOutcome) (row : AuthorizationRow) (d : PolicyDecisionRow)
    → d.decision ≡ o
    → scheme_agrees row (scheme_for (some d)) ≡ true
    → ((d.decision ≡ allow) × (row.approval_scheme ≡ policy_auto))
      ⊎ ((d.decision ≡ require_approval) × (row.approval_scheme ≡ user_ed25519))
unfolding scheme_for
scheme_for-ruling allow row d e h =
    inl (e, scheme_eq_sound row.approval_scheme policy_auto (rw e at h))
scheme_for-ruling require_approval row d e h =
    inr (e, scheme_eq_sound row.approval_scheme user_ed25519 (rw e at h))
scheme_for-ruling deny row d e h = absurd (cc (rw e at h))

pub expected_scheme-Ruled :
    (ds : List PolicyDecisionRow) (row : AuthorizationRow)
    → scheme_agrees row (expected_scheme ds row) ≡ true
    → Ruled ds row
unfolding expected_scheme
expected_scheme-Ruled ds row h = elim (Option-cases (latest none (decisions_for row ds))) [
  | inl nothing ↦ absurd (cc (rw (expected_scheme, nothing) at h))
  | inr (d, found) ↦
      let (there, newest) = latest-found (decisions_for row ds) found in
      let (made, mission, version) = decisions_for_sound row ds there in
      record {
        decision = d;
        made = made;
        mission = mission;
        version = version;
        latest = λ x m p q. newest x (decisions_for_complete row ds x m p q);
        scheme = scheme_for-ruling d.decision row d refl (rw (expected_scheme, found) at h);
      }
]
