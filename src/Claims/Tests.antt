-- ===== src/Claims/Tests.antt =====
-- The assessment on two pads.
use true_pad.Claims.{
  cli_ceremony, external_declared, physical_private_operator_asserted, not_sealed, accepted, native,
  healthy, regressed, platform_monotonic, handoff_accepted, DeploymentFacts, KnownReason,
  conditionally_eligible, not_eligible, assess_deployment, WitnessHealth,
}
use true_pad.Claims.Assess.{
  IsMaximal, platform_regressed, assess_deployment-eligible_iff, assess_deployment-disqualified,
}
use true_pad.Base.{◌≡◌, ◌↔◌, refl}

abbrev with_witness : WitnessHealth → DeploymentFacts
with_witness health = record {
  creation = cli_ceremony;
  source = external_declared;
  delivery = physical_private_operator_asserted;
  sealed_ancestor = not_sealed;
  ceremony_premises = accepted;
  storage = native;
  rollback = platform_monotonic health;
  assurance_authority = handoff_accepted;
}

assess_deployment-eligible_iff_example :
    (assess_deployment (with_witness healthy) ≡ conditionally_eligible)
    ↔ IsMaximal (with_witness healthy)
assess_deployment-eligible_iff_example = assess_deployment-eligible_iff (with_witness healthy)

assess_deployment-disqualified_example :
    (reason : KnownReason) × (assess_deployment (with_witness regressed) ≡ not_eligible reason)
assess_deployment-disqualified_example =
    assess_deployment-disqualified (with_witness regressed) (platform_regressed refl)
