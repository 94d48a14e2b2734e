-- ===== src/Claims/Assess.antt =====
-- When the assessment is favourable, and what rules it out whatever else is recorded.
use true_pad.Claims.{
  CreationClass, cli_gen, cli_ceremony, SourceClass, software_csprng, external_declared,
  DeliveryClass, physical_private_operator_asserted, sealed_tps2, CeremonyPremises, accepted,
  withdrawn_premises, StorageAuthority, native, browser_opfs, healthy, RollbackAuthority,
  platform_monotonic, separate_state_file, regressed, inconsistent, untrusted_authority, withdrawn,
  inconsistent_assurance, behind_witness, witness_inconsistent, authority_untrusted,
  authority_withdrawn, authority_inconsistent, AssuranceAuthority, handoff_accepted, SealedAncestor,
  not_sealed, sealed, DeploymentFacts, KnownReason, Assessment, conditionally_eligible,
  not_eligible, insufficient_evidence, premises_missing, software_source, sealed_delivery,
  browser_storage, premise_withdrawn, plain_gen, is_software_csprng, is_sealed_tps2, is_sealed,
  is_browser_opfs, is_withdrawn, is_cli_gen, is_cli_ceremony, is_external_declared, is_physical,
  is_not_sealed, is_accepted, is_native, rollback_reason, assurance_reason, maximal_except_rollback,
  assess_rollback, assess_maximal, contradiction, assess_deployment,
}
use true_pad.Base.{
  ◌≡◌, ◌≢◌, ◌↔◌, refl, ap, true, false, ◌&&◌, ◌||◌, Bool, Option, none, some, arith, if◌then◌else◌,
}

-- The one favourable set of facts.
pub record IsMaximal (f : DeploymentFacts) : Type 0 where
  pub made_by_ceremony : f.creation ≡ cli_ceremony
  pub external_source : f.source ≡ external_declared
  pub carried_privately : f.delivery ≡ physical_private_operator_asserted
  pub never_sealed : f.sealed_ancestor ≡ not_sealed
  pub premises_accepted : f.ceremony_premises ≡ accepted
  pub stored_natively : f.storage ≡ native
  pub live_witness : f.rollback ≡ platform_monotonic healthy
  pub handoff_attested : f.assurance_authority ≡ handoff_accepted

-- The facts that rule a pad out.
pub data IsDisqualified (f : DeploymentFacts) : Type 0 where
  software : f.source ≡ software_csprng → IsDisqualified f
  sealed_now : f.delivery ≡ sealed_tps2 → IsDisqualified f
  sealed_before : f.sealed_ancestor ≡ sealed → IsDisqualified f
  in_browser : f.storage ≡ browser_opfs → IsDisqualified f
  premise_gone : f.ceremony_premises ≡ withdrawn_premises → IsDisqualified f
  plain : f.creation ≡ cli_gen → IsDisqualified f
  file_regressed : f.rollback ≡ separate_state_file regressed → IsDisqualified f
  file_inconsistent : f.rollback ≡ separate_state_file inconsistent → IsDisqualified f
  platform_regressed : f.rollback ≡ platform_monotonic regressed → IsDisqualified f
  platform_inconsistent : f.rollback ≡ platform_monotonic inconsistent → IsDisqualified f
  untrusted : f.assurance_authority ≡ untrusted_authority → IsDisqualified f
  authority_gone : f.assurance_authority ≡ withdrawn → IsDisqualified f
  contradictory : f.assurance_authority ≡ inconsistent_assurance → IsDisqualified f

and_both : (a b : Bool) → (a && b) ≡ true → (a ≡ true) × (b ≡ true)
and_both true b h = (refl, h)
and_both false b h = ground arith

maximal_parts :
    (a b c d e g : Bool)
    → (a && b && c && d && e && g) ≡ true
    → (a ≡ true) × (b ≡ true) × (c ≡ true) × (d ≡ true) × (e ≡ true) × (g ≡ true)
maximal_parts true true true true true true h = (refl, refl, refl, refl, refl, refl)
maximal_parts a b c d e g h =
    (ground arith, ground arith, ground arith, ground arith, ground arith, ground arith)

is_cli_ceremony-eq : (c : CreationClass) → is_cli_ceremony c ≡ true → c ≡ cli_ceremony
is_cli_ceremony-eq c h = ground arith

is_external_declared-eq : (c : SourceClass) → is_external_declared c ≡ true → c ≡ external_declared
is_external_declared-eq c h = ground arith

is_physical-eq : (c : DeliveryClass) → is_physical c ≡ true → c ≡ physical_private_operator_asserted
is_physical-eq c h = ground arith

is_not_sealed-eq : (c : SealedAncestor) → is_not_sealed c ≡ true → c ≡ not_sealed
is_not_sealed-eq c h = ground arith

is_accepted-eq : (c : CeremonyPremises) → is_accepted c ≡ true → c ≡ accepted
is_accepted-eq c h = ground arith

is_native-eq : (c : StorageAuthority) → is_native c ≡ true → c ≡ native
is_native-eq c h = ground arith

assess_rollback_inv :
    (r : RollbackAuthority) (a : AssuranceAuthority)
    → assess_rollback r a ≡ conditionally_eligible
    → (r ≡ platform_monotonic healthy) × (a ≡ handoff_accepted)
assess_rollback_inv r a h = (ground arith, ground arith)

assess_of_inv :
    (o : Option KnownReason) (m : Assessment)
    → (elim o [ some reason ↦ not_eligible reason | none ↦ m ]) ≡ conditionally_eligible
    → m ≡ conditionally_eligible
assess_of_inv none m h = h
assess_of_inv (some reason) m h = ground arith

assess_maximal_inv :
    (b : Bool) (m : Assessment)
    → (if b then m else insufficient_evidence premises_missing) ≡ conditionally_eligible
    → (b ≡ true) × (m ≡ conditionally_eligible)
assess_maximal_inv true m h = (refl, h)
assess_maximal_inv false m h = ground arith

eligible_inv : (f : DeploymentFacts) → assess_deployment f ≡ conditionally_eligible → IsMaximal f
unfolding assess_deployment maximal_except_rollback
eligible_inv f h =
    let passed = assess_of_inv (contradiction f) (assess_maximal f) h in
    let (maximal, rest) =
      assess_maximal_inv (maximal_except_rollback f)
        (assess_rollback f.rollback f.assurance_authority) passed in
    let (a, b, c, d, e, g) = maximal_parts _ _ _ _ _ _ maximal in
    let (live, attested) = assess_rollback_inv f.rollback f.assurance_authority rest in
    record {
      made_by_ceremony = is_cli_ceremony-eq f.creation a;
      external_source = is_external_declared-eq f.source b;
      carried_privately = is_physical-eq f.delivery c;
      never_sealed = is_not_sealed-eq f.sealed_ancestor d;
      premises_accepted = is_accepted-eq f.ceremony_premises e;
      stored_natively = is_native-eq f.storage g;
      live_witness = live;
      handoff_attested = attested;
    }

-- A pad is assessed as conditionally eligible exactly for the one strongest set of facts.
pub assess_deployment-eligible_iff :
    (f : DeploymentFacts) → (assess_deployment f ≡ conditionally_eligible) ↔ IsMaximal f
unfolding assess_deployment maximal_except_rollback contradiction
assess_deployment-eligible_iff f = (eligible_inv f, eligible f)
  where
    eligible : (g : DeploymentFacts) → IsMaximal g → assess_deployment g ≡ conditionally_eligible
    eligible g m =
        rw
          (
            m.made_by_ceremony, m.external_source, m.carried_privately, m.never_sealed,
            m.premises_accepted, m.stored_natively, m.live_witness, m.handoff_attested,
          )
          refl

contradicted :
    (o : Option KnownReason) (m : Assessment)
    → o ≢ none
    → (reason : KnownReason) × ((elim o [ some reason ↦ not_eligible reason | none ↦ m ])
        ≡ not_eligible reason)
contradicted none m h = absurd (h refl)
contradicted (some reason) m h = (reason, refl)

some_here :
    (b : Bool) (reason : KnownReason) (rest : Option KnownReason)
    → b ≡ true
    → (if b then some reason else rest) ≢ none
some_here true reason rest h q = ground arith
some_here false reason rest h q = ground arith

some_later :
    (b : Bool) (reason : KnownReason) (rest : Option KnownReason)
    → rest ≢ none
    → (if b then some reason else rest) ≢ none
some_later true reason rest h q = ground arith
some_later false reason rest h q = h q

rollback_some :
    (o p : Option KnownReason) (reason : KnownReason)
    → o ≡ some reason
    → (elim o [ some r ↦ some r | none ↦ p ]) ≢ none
rollback_some none p reason h q = ground arith
rollback_some (some r) p reason h q = ground arith

assurance_some :
    (o p : Option KnownReason) (reason : KnownReason)
    → p ≡ some reason
    → (elim o [ some r ↦ some r | none ↦ p ]) ≢ none
assurance_some none p reason h q = ground arith
assurance_some (some r) p reason h q = ground arith

or_right : (a b : Bool) → b ≡ true → (a || b) ≡ true
or_right a b h = ground arith

or_left : (a b : Bool) → a ≡ true → (a || b) ≡ true
or_left a b h = ground arith

past_tests :
    (f : DeploymentFacts)
    → (elim (rollback_reason f.rollback) [
      | some reason ↦ some reason
      | none ↦ assurance_reason f.assurance_authority
    ])
      ≢ none
    → contradiction f ≢ none
unfolding contradiction
past_tests f h = some_later (is_software_csprng f.source) software_source _ (
    some_later (is_sealed_tps2 f.delivery || is_sealed f.sealed_ancestor) sealed_delivery _ (
      some_later (is_browser_opfs f.storage) browser_storage _ (
        some_later (is_withdrawn f.ceremony_premises) premise_withdrawn _
          (some_later (is_cli_gen f.creation) plain_gen _ h))))

disqualifies : (f : DeploymentFacts) → IsDisqualified f → contradiction f ≢ none
unfolding contradiction
disqualifies f (software e) =
    some_here (is_software_csprng f.source) software_source _ (ap is_software_csprng e)
disqualifies f (sealed_now e) = some_later (is_software_csprng f.source) software_source _ (
    some_here (is_sealed_tps2 f.delivery || is_sealed f.sealed_ancestor) sealed_delivery _
      (or_left _ _ (ap is_sealed_tps2 e)))
disqualifies f (sealed_before e) = some_later (is_software_csprng f.source) software_source _ (
    some_here (is_sealed_tps2 f.delivery || is_sealed f.sealed_ancestor) sealed_delivery _
      (or_right (is_sealed_tps2 f.delivery) _ (ap is_sealed e)))
disqualifies f (in_browser e) = some_later (is_software_csprng f.source) software_source _ (
    some_later (is_sealed_tps2 f.delivery || is_sealed f.sealed_ancestor) sealed_delivery _
      (some_here (is_browser_opfs f.storage) browser_storage _ (ap is_browser_opfs e)))
disqualifies f (premise_gone e) = some_later (is_software_csprng f.source) software_source _ (
    some_later (is_sealed_tps2 f.delivery || is_sealed f.sealed_ancestor) sealed_delivery _ (
      some_later (is_browser_opfs f.storage) browser_storage _
        (some_here (is_withdrawn f.ceremony_premises) premise_withdrawn _ (ap is_withdrawn e))))
disqualifies f (plain e) = some_later (is_software_csprng f.source) software_source _ (
    some_later (is_sealed_tps2 f.delivery || is_sealed f.sealed_ancestor) sealed_delivery _ (
      some_later (is_browser_opfs f.storage) browser_storage _ (
        some_later (is_withdrawn f.ceremony_premises) premise_withdrawn _
          (some_here (is_cli_gen f.creation) plain_gen _ (ap is_cli_gen e)))))
disqualifies f (file_regressed e) =
    past_tests f (rollback_some _ _ behind_witness (ap rollback_reason e))
disqualifies f (file_inconsistent e) =
    past_tests f (rollback_some _ _ witness_inconsistent (ap rollback_reason e))
disqualifies f (platform_regressed e) =
    past_tests f (rollback_some _ _ behind_witness (ap rollback_reason e))
disqualifies f (platform_inconsistent e) =
    past_tests f (rollback_some _ _ witness_inconsistent (ap rollback_reason e))
disqualifies f (untrusted e) =
    past_tests f (assurance_some _ _ authority_untrusted (ap assurance_reason e))
disqualifies f (authority_gone e) =
    past_tests f (assurance_some _ _ authority_withdrawn (ap assurance_reason e))
disqualifies f (contradictory e) =
    past_tests f (assurance_some _ _ authority_inconsistent (ap assurance_reason e))

-- Each disqualifying fact, of thirteen that are listed one by one, makes a pad not eligible, whatever
-- the other facts are.
pub assess_deployment-disqualified :
    (f : DeploymentFacts)
    → IsDisqualified f
    → (reason : KnownReason) × (assess_deployment f ≡ not_eligible reason)
unfolding assess_deployment
assess_deployment-disqualified f d =
    contradicted (contradiction f) (assess_maximal f) (disqualifies f d)
