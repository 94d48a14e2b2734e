-- ===== src/Claims.antt =====
-- The assessment of a pad's deployment from its recorded and live facts,
-- src/claims/shannon-deployment.ts.
mod Tests
pub mod Assess
use true_pad.Base.{
  ℕ, zero, suc, ◌+◌, ◌-◌, ◌*◌, ◌/◌, ◌%◌, ◌^◌, ◌≤◌, ◌<◌, ◌≡◌, ◌≢◌, ◌↔◌, ◌⊎◌, inl, inr, refl, sym, ap,
  ap₂, subst, ◌∙◌, bit_and, bit_or, bit_xor, true, false, not, ◌&&◌, ◌||◌, List, [], ◌∷◌, ◌++◌,
  Bool, Option, none, some, arith, Bytes, IsByte, IsBytes, All, length, take, drop, replicate,
  get_elem?, get_or, ◌==◌, ltb, leb, if◌then◌else◌, ◌>>=◌, min, max, Bool-cases, Option-cases,
  codes, max_safe, same, append-nil, append_assoc, map,
}

pub data CreationClass : Type 0 where
  browser_generated cli_gen cli_ceremony imported creation_unknown : CreationClass

pub data SourceClass : Type 0 where
  software_csprng external_declared source_unknown : SourceClass

pub data DeliveryClass : Type 0 where
  local_only physical_private_operator_asserted sealed_tps2 raw_import_unknown delivery_unknown :
      DeliveryClass

pub data CeremonyPremises : Type 0 where
  accepted absent_premises withdrawn_premises premises_unknown : CeremonyPremises

pub data StorageAuthority : Type 0 where
  native browser_opfs storage_unknown : StorageAuthority

pub data WitnessHealth : Type 0 where
  healthy unreachable regressed inconsistent unsupported : WitnessHealth

pub data RollbackAuthority : Type 0 where
  no_authority unknown_authority browser_local : RollbackAuthority
  separate_state_file : (health : WitnessHealth) → RollbackAuthority
  platform_monotonic : (health : WitnessHealth) → RollbackAuthority

pub data AssuranceAuthority : Type 0 where
  unavailable untrusted_authority ordinary ceremony_created : AssuranceAuthority
  handoff_accepted withdrawn inconsistent_assurance : AssuranceAuthority

-- A sealed ancestor: `false`, `true` or `"unknown"`.
pub data SealedAncestor : Type 0 where
  not_sealed sealed sealed_unknown : SealedAncestor

pub record DeploymentFacts : Type 0 where
  pub creation : CreationClass
  pub source : SourceClass
  pub delivery : DeliveryClass
  pub sealed_ancestor : SealedAncestor
  pub ceremony_premises : CeremonyPremises
  pub storage : StorageAuthority
  pub rollback : RollbackAuthority
  pub assurance_authority : AssuranceAuthority

-- The reason that goes with a result, one for each text of the source.
pub data KnownReason : Type 0 where
  software_source sealed_delivery browser_storage premise_withdrawn plain_gen : KnownReason
  behind_witness witness_inconsistent authority_untrusted authority_withdrawn : KnownReason
  authority_inconsistent only_separate_file authority_unreachable authority_unsupported :
      KnownReason
  ceremony_unattested handoff_unattested no_platform_authority premises_missing : KnownReason

pub data Assessment : Type 0 where
  conditionally_eligible : Assessment
  not_eligible : (reason : KnownReason) → Assessment
  insufficient_evidence : (reason : KnownReason) → Assessment

-- `===` on the values of these enumerations.
abbrev pub is_software_csprng : SourceClass → Bool
is_software_csprng software_csprng = true
is_software_csprng _ = false

abbrev pub is_external_declared : SourceClass → Bool
is_external_declared external_declared = true
is_external_declared _ = false

abbrev pub is_sealed_tps2 : DeliveryClass → Bool
is_sealed_tps2 sealed_tps2 = true
is_sealed_tps2 _ = false

abbrev pub is_physical : DeliveryClass → Bool
is_physical physical_private_operator_asserted = true
is_physical _ = false

abbrev pub is_sealed : SealedAncestor → Bool
is_sealed sealed = true
is_sealed _ = false

abbrev pub is_not_sealed : SealedAncestor → Bool
is_not_sealed not_sealed = true
is_not_sealed _ = false

abbrev pub is_browser_opfs : StorageAuthority → Bool
is_browser_opfs browser_opfs = true
is_browser_opfs _ = false

abbrev pub is_native : StorageAuthority → Bool
is_native native = true
is_native _ = false

abbrev pub is_withdrawn : CeremonyPremises → Bool
is_withdrawn withdrawn_premises = true
is_withdrawn _ = false

abbrev pub is_accepted : CeremonyPremises → Bool
is_accepted accepted = true
is_accepted _ = false

abbrev pub is_cli_gen : CreationClass → Bool
is_cli_gen cli_gen = true
is_cli_gen _ = false

abbrev pub is_cli_ceremony : CreationClass → Bool
is_cli_ceremony cli_ceremony = true
is_cli_ceremony _ = false

-- What a configured rollback authority's health disqualifies.
abbrev pub rollback_reason : RollbackAuthority → Option KnownReason
rollback_reason (separate_state_file regressed) = some behind_witness
rollback_reason (separate_state_file inconsistent) = some witness_inconsistent
rollback_reason (platform_monotonic regressed) = some behind_witness
rollback_reason (platform_monotonic inconsistent) = some witness_inconsistent
rollback_reason _ = none

abbrev pub assurance_reason : AssuranceAuthority → Option KnownReason
assurance_reason untrusted_authority = some authority_untrusted
assurance_reason withdrawn = some authority_withdrawn
assurance_reason inconsistent_assurance = some authority_inconsistent
assurance_reason _ = none

unfoldable pub maximal_except_rollback : DeploymentFacts → Bool
maximal_except_rollback f =
    is_cli_ceremony f.creation
    && is_external_declared f.source
    && is_physical f.delivery
    && is_not_sealed f.sealed_ancestor
    && is_accepted f.ceremony_premises
    && is_native f.storage

-- The strongest path, and what it lacks, of a pad that is maximal but for the rollback authority.
abbrev pub assess_rollback : RollbackAuthority → AssuranceAuthority → Assessment
assess_rollback (platform_monotonic healthy) handoff_accepted = conditionally_eligible
assess_rollback (platform_monotonic healthy) unavailable = insufficient_evidence ceremony_unattested
assess_rollback (platform_monotonic healthy) _ = insufficient_evidence handoff_unattested
assess_rollback (platform_monotonic unreachable) _ = insufficient_evidence authority_unreachable
assess_rollback (platform_monotonic unsupported) _ = insufficient_evidence authority_unsupported
assess_rollback (separate_state_file healthy) _ = insufficient_evidence only_separate_file
assess_rollback _ _ = insufficient_evidence no_platform_authority

abbrev pub assess_maximal : DeploymentFacts → Assessment
assess_maximal f =
    if maximal_except_rollback f
    then assess_rollback f.rollback f.assurance_authority
    else insufficient_evidence premises_missing

-- The first contradiction, in the order of the source.
unfoldable pub contradiction : DeploymentFacts → Option KnownReason
contradiction f =
    if is_software_csprng f.source
    then some software_source
    else if is_sealed_tps2 f.delivery || is_sealed f.sealed_ancestor
    then some sealed_delivery
    else if is_browser_opfs f.storage
    then some browser_storage
    else if is_withdrawn f.ceremony_premises
    then some premise_withdrawn
    else if is_cli_gen f.creation
    then some plain_gen
    else elim (rollback_reason f.rollback) [
      | some reason ↦ some reason
      | none ↦ assurance_reason f.assurance_authority
    ]

unfoldable pub assess_deployment : DeploymentFacts → Assessment
assess_deployment f = elim (contradiction f) [
  | some reason ↦ not_eligible reason
  | none ↦ assess_maximal f
]
