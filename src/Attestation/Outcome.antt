-- ===== src/Attestation/Outcome.antt =====
-- The outcomes of a validation.
use depa_kms_gcp_oidc.Prelude.{
  ◌≢◌, inl, inr, String, Option, none, some, arith, Bool-cases, Option-cases,
}
use depa_kms_gcp_oidc.Js.{Value, str, member, strict_eq, truthy}
use depa_kms_gcp_oidc.ServiceResult.{
  callee_error, internal_error, gcp_attestation_error, ServiceResult, succeeded, accepted, returned,
  ◌>>=◌, or_throw, bind-eq-returned, catching-ne-accepted,
}
use depa_kms_gcp_oidc.Tooling.{Bytes}
use depa_kms_gcp_oidc.Ccf.{Ccf, SnpReport}
use depa_kms_gcp_oidc.Repositories.{Kv}
use depa_kms_gcp_oidc.Policies.KeyRelease.{
  get_key_release_policy_from_map, validate_key_release_policy,
}
use depa_kms_gcp_oidc.Policies.KeyRelease.Outcome.{validate_key_release_policy-ne-accepted}
use depa_kms_gcp_oidc.Attestation.{
  get_claims, with_part, with_decoded, with_parts, validate_gcp_attestation,
  validate_azure_attestation, validate_attestation,
}

with_part-ne-accepted :
    (part : Value) (name : String) (rest : ServiceResult Value)
    → rest ≢ accepted
    → with_part part name rest ≢ accepted
unfolding with_part
with_part-ne-accepted part name rest n = ground arith

with_decoded-ne-accepted :
    (ccf : Ccf) (part : Value) (name : String) (rest : Bytes → ServiceResult Value)
    → ((bytes : Bytes) → rest bytes ≢ accepted)
    → with_decoded ccf part name rest ≢ accepted
unfolding with_decoded
with_decoded-ne-accepted ccf part name rest n = elim (Option-cases (ccf.base64_decode part)) [
  | inl malformed ↦ ground (arith, malformed)
  | inr (bytes, decoded) ↦ ground (arith, decoded, n bytes)
]

module _ (ccf : Ccf) (attestation : Value) (name : String)
    (rest : Bytes → Bytes → Bytes → ServiceResult Value) where
  with_parts-ne-accepted :
      ((e d u : Bytes) → rest e d u ≢ accepted) → with_parts ccf attestation name rest ≢ accepted
  unfolding with_parts
  with_parts-ne-accepted n = elim (Bool-cases (truthy attestation)) [
    | inr missing ↦ rw (missing, with_parts) (λ h. cc)
    | inl present ↦
        rw (present, with_parts)
          (with_part-ne-accepted _ _ _ (
            with_part-ne-accepted _ _ _ (
              with_part-ne-accepted _ _ _ (
                with_part-ne-accepted _ _ _ (
                  with_decoded-ne-accepted ccf _ _ _ λ e.
                    with_decoded-ne-accepted ccf _ _ _
                      λ d. with_decoded-ne-accepted ccf _ _ _ λ u. n e d u)))))
  ]

gcp_answer-ne-accepted :
    (o : Option SnpReport)
    → (or_throw callee_error o >>= λ report. returned (succeeded (get_claims report)))
      ≢ returned accepted
gcp_answer-ne-accepted none h = cc
gcp_answer-ne-accepted (some report) h = cc

azure_answer-ne-accepted :
    (kv : Kv) (o : Option SnpReport)
    → (or_throw callee_error o >>= λ report.
        get_key_release_policy_from_map kv.key_release >>= λ policy.
        validate_key_release_policy policy (get_claims report))
      ≢ returned accepted
azure_answer-ne-accepted kv none h = cc
azure_answer-ne-accepted kv (some report) h =
    let (policy, stored, h') =
      bind-eq-returned (get_key_release_policy_from_map kv.key_release) _ h in
    validate_key_release_policy-ne-accepted policy (get_claims report) h'

-- A validation succeeds or fails; it never answers that the request is accepted for later.
pub validate_attestation-ne-accepted :
    (ccf : Ccf) (kv : Kv) (attestation provider : Value)
    → validate_attestation ccf kv attestation provider ≢ accepted
unfolding validate_attestation validate_gcp_attestation validate_azure_attestation
validate_attestation-ne-accepted ccf kv attestation provider =
    let tcb = member attestation "endorsed_tcb" in
    elim (Bool-cases (strict_eq provider (str "gcp"))) [
      | inl gcp ↦ rw gcp (
          with_parts-ne-accepted ccf attestation "endorsements" _ λ e d u.
            catching-ne-accepted gcp_attestation_error 500 _
              (gcp_answer-ne-accepted (ccf.verify_snp_attestation e d u tcb)))
      | inr azure ↦ rw azure (
          with_parts-ne-accepted ccf attestation "evidence" _ λ e d u.
            catching-ne-accepted internal_error 500 _
              (azure_answer-ne-accepted kv (ccf.verify_snp_attestation e d u tcb)))
    ]
