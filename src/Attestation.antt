-- ===== src/Attestation.antt =====
-- src/attestation/: AttestationValidation.ts, GcpAttestationValidation.ts and
-- SnpAttestationClaims.ts. An attestation is the JSON value of the request body.
pub mod Claims
pub mod Validation
pub mod Outcome
pub mod Vtpm
use depa_kms_gcp_oidc.Prelude.{
  ℕ, String, Bool, not, ◌&&◌, ◌||◌, Option, none, some, eqb, if◌then◌else◌,
}
use depa_kms_gcp_oidc.Js.{
  Value, bool, num, str, obj, Fields, end, field, of_ℕ, decimal, member, truthy, is_string,
  strict_eq,
}
use depa_kms_gcp_oidc.ServiceResult.{
  ErrorMessage, callee_error, missing_attestation, missing_part, malformed_part, internal_error,
  gcp_attestation_error, ServiceResult, succeeded, failed, Throws, returned, ◌>>=◌, or_throw,
  catching,
}
use depa_kms_gcp_oidc.Tooling.{Bytes, array_buffer_to_hex}
use depa_kms_gcp_oidc.Ccf.{Ccf, SnpReport, SnpAttestation, SnpPolicy, SnpSignature, UvmEndorsements}
use depa_kms_gcp_oidc.Repositories.{Kv}
use depa_kms_gcp_oidc.Policies.KeyRelease.{
  get_key_release_policy_from_map, validate_key_release_policy,
}

-- `object?.attribute`
abbrev pub chain : {A B : Type 0} → Option A → (A → Option B) → Option B
chain none f = none
chain (some a) f = f a

-- `if (val !== undefined) reportClaims[key] = convert(val)`, in front of the later claims.
unfoldable pub claim : {A : Type 0} → String → (A → Value) → Option A → Fields → Fields
claim key convert none later = later
claim key convert (some val) later = field key (convert val) later

abbrev pub as_hex : Bytes → Value
as_hex bytes = str (array_buffer_to_hex bytes)

abbrev pub as_number : ℕ → Value
as_number n = num (of_ℕ n)

abbrev pub as_text : ℕ → Value
as_text n = str (decimal n)

-- `val === 1`
abbrev pub as_flag : ℕ → Value
as_flag n = bool (eqb n 1)

signature_claims : Option SnpSignature → Fields → Fields
signature_claims signature later =
    claim "signature-r" as_hex (chain signature (λ s. s.r))
      (claim "signature-s" as_hex (chain signature (λ s. s.s)) later)

uvm_claims : Option UvmEndorsements → Fields
uvm_claims uvm = claim "uvm_endorsements-did" str (chain uvm (λ u. u.did)) (
    claim "uvm_endorsements-feed" str (chain uvm (λ u. u.feed))
      (claim "uvm_endorsements-svn" str (chain uvm (λ u. u.svn)) end))

digest_claims : Option SnpAttestation → Fields → Fields
digest_claims a later = claim "x-ms-sevsnpvm-reportdata" as_hex (chain a (λ a. a.report_data)) (
    claim "x-ms-sevsnpvm-launchmeasurement" as_hex (chain a (λ a. a.measurement)) (
      claim "x-ms-sevsnpvm-hostdata" as_hex (chain a (λ a. a.host_data)) (
        claim "x-ms-sevsnpvm-idkeydigest" as_hex (chain a (λ a. a.id_key_digest)) (
          claim "x-ms-sevsnpvm-authorkeydigest" as_hex (chain a (λ a. a.author_key_digest))
            (claim "x-ms-sevsnpvm-reportid" as_hex (chain a (λ a. a.report_id)) later)))))

report_fields : Option SnpAttestation → Fields → Fields
unfolding digest_claims signature_claims
report_fields a later =
    let policy = chain a (λ a. a.policy) in
    claim "x-ms-ver" as_text (chain a (λ a. a.version)) (
      claim "x-ms-sevsnpvm-guestsvn" as_number (chain a (λ a. a.guest_svn)) (
        claim "x-ms-sevsnpvm-smt-allowed" as_flag (chain policy (λ p. p.smt)) (
          claim "x-ms-sevsnpvm-is-debuggable" as_flag (chain policy (λ p. p.debug)) (
            claim "x-ms-sevsnpvm-familyId" as_hex (chain a (λ a. a.family_id)) (
              claim "x-ms-sevsnpvm-imageId" as_hex (chain a (λ a. a.image_id)) (
                claim "x-ms-sevsnpvm-vmpl" as_number (chain a (λ a. a.vmpl))
                  (digest_claims a (signature_claims (chain a (λ a. a.signature)) later))))))))

-- `SnpAttestationClaims.getClaims`
pub get_claims : SnpReport → Value
unfolding report_fields uvm_claims
get_claims report = obj (report_fields report.attestation (uvm_claims report.uvm_endorsements))

-- `if (!part && typeof part !== "string") return Failed(...)`
with_part : Value → String → ServiceResult Value → ServiceResult Value
unfolding truthy is_string
with_part part name rest =
    if truthy part || is_string part then rest else failed (missing_part name) 400

with_decoded : Ccf → Value → String → (Bytes → ServiceResult Value) → ServiceResult Value
with_decoded ccf part name rest = elim (ccf.base64_decode part) [
  | none ↦ failed (malformed_part name) 400
  | some bytes ↦ rest bytes
]

-- The checks of the parts; `endorsements_name` is what the message on missing endorsements says.
with_parts :
    Ccf → Value → String → (Bytes → Bytes → Bytes → ServiceResult Value) → ServiceResult Value
with_parts ccf attestation endorsements_name rest =
    let evidence = member attestation "evidence" in
    let endorsements = member attestation "endorsements" in
    let uvm_endorsements = member attestation "uvm_endorsements" in
    if not (truthy attestation)
    then failed missing_attestation 400
    else with_part evidence "evidence" (
        with_part endorsements endorsements_name (
          with_part uvm_endorsements "uvm_endorsements" (
            with_part (member attestation "endorsed_tcb") "endorsed_tcb" (
              with_decoded ccf evidence "evidence" λ e.
                with_decoded ccf endorsements "endorsements"
                  λ d. with_decoded ccf uvm_endorsements "uvm_endorsements" λ u. rest e d u))))

pub validate_gcp_attestation : Ccf → Value → ServiceResult Value
validate_gcp_attestation ccf attestation = with_parts ccf attestation "endorsements" λ e d u.
    catching gcp_attestation_error 500 (do
      report ←
          or_throw callee_error
            (ccf.verify_snp_attestation e d u (member attestation "endorsed_tcb"))
      returned (succeeded (get_claims report)))

-- The message on missing endorsements names the evidence.
validate_azure_attestation : Ccf → Kv → Value → ServiceResult Value
validate_azure_attestation ccf kv attestation = with_parts ccf attestation "evidence" λ e d u.
    catching internal_error 500 (do
      report ←
          or_throw callee_error
            (ccf.verify_snp_attestation e d u (member attestation "endorsed_tcb"))
      policy ← get_key_release_policy_from_map kv.key_release
      validate_key_release_policy policy (get_claims report))

pub validate_attestation : Ccf → Kv → Value → (provider : Value) → ServiceResult Value
validate_attestation ccf kv attestation provider =
    if strict_eq provider (str "gcp")
    then validate_gcp_attestation ccf attestation
    else validate_azure_attestation ccf kv attestation

-- Opens what a run of a validation calls.
unfoldable pub attestation_runs : Unit {0}
unfolding get_claims claim member truthy strict_eq with_part with_decoded with_parts
    validate_gcp_attestation validate_azure_attestation validate_attestation
    get_key_release_policy_from_map validate_key_release_policy
attestation_runs = tt
