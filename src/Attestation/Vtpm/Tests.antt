-- ===== src/Attestation/Vtpm/Tests.antt =====
-- Runs on the table of measurements and on the result that stands in for an attestation.
use depa_kms_gcp_oidc.Prelude.{
  ◌≡◌, ◌↔◌, refl, String, Bool, true, false, replicate, not, ◌&&◌, List, [], ◌∷◌, any, ◌==◌, eqb,
  length,
}
use depa_kms_gcp_oidc.Js.{codes}
use depa_kms_gcp_oidc.ServiceResult.{succeeded, returned}
use depa_kms_gcp_oidc.Tooling.{array_buffer_to_hex}
use depa_kms_gcp_oidc.Tooling.Hex.{from_hex}
use depa_kms_gcp_oidc.Policies.KeyRelease.{validate_key_release_policy}
use depa_kms_gcp_oidc.Attestation.{get_claims}
use depa_kms_gcp_oidc.Attestation.Vtpm.{hardcoded_gcp_vtpm_result, report_of}
use depa_kms_gcp_oidc.Attestation.Vtpm.Machines.{gcp_vcpu_measurements, gcp_valid_measurements}
use depa_kms_gcp_oidc.Attestation.Vtpm.Measurements.{policy_of, IsMeasured, policy_of-releases_iff}

-- The text is the hexadecimal text of 48 bytes.
is_measurement : String → Bool
unfolding from_hex
is_measurement t =
    let bytes = from_hex (codes t) in eqb (length bytes) 48 && (array_buffer_to_hex bytes == t)

are_distinct : List String → Bool
are_distinct [] = true
are_distinct (t ∷ ts) = not (any (λ u. u == t) ts) && are_distinct ts

are_measurements : List String → Bool
unfolding is_measurement
are_measurements [] = true
are_measurements (t ∷ ts) = is_measurement t && are_measurements ts

measurements_run :
    (are_measurements gcp_valid_measurements ≡ true)
    × (are_distinct gcp_valid_measurements ≡ true)
    × (length gcp_vcpu_measurements ≡ 13)
unfolding are_measurements are_distinct array_buffer_to_hex
measurements_run = (refl, refl, refl)

-- The stand-in is no valid machine.
stand_in_run : any (λ t. t == array_buffer_to_hex (replicate 48 0)) gcp_valid_measurements ≡ false
unfolding array_buffer_to_hex
stand_in_run = refl

policy_of-releases_iff_example :
    (validate_key_release_policy
        (policy_of gcp_valid_measurements)
        (get_claims (report_of hardcoded_gcp_vtpm_result))
      ≡ returned (succeeded (get_claims (report_of hardcoded_gcp_vtpm_result))))
    ↔ IsMeasured gcp_valid_measurements (report_of hardcoded_gcp_vtpm_result)
policy_of-releases_iff_example =
    policy_of-releases_iff gcp_valid_measurements (report_of hardcoded_gcp_vtpm_result)
