-- ===== src/Attestation/Claims.antt =====
-- The claims that `getClaims` reads off a report.
use depa_kms_gcp_oidc.Prelude.{
  ◌≡◌, refl, String, Option, none, some, arith, ◌==◌, lookup, if◌then◌else◌,
}
use depa_kms_gcp_oidc.Js.{Value, undefined, Fields, end, props, or_undefined, member}
use depa_kms_gcp_oidc.Ccf.{SnpReport}
use depa_kms_gcp_oidc.Attestation.{
  chain, claim, as_hex, as_number, as_text, as_flag, signature_claims, uvm_claims, digest_claims,
  report_fields, get_claims,
}

abbrev or_later : {A : Type 0} → (A → Value) → Option A → Option Value → Option Value
or_later convert none later = later
or_later convert (some val) later = some (convert val)

lookup-claim :
    {A : Type 0} (k key : String) (convert : A → Value) (val : Option A) (later : Fields)
    → lookup k (props (claim key convert val later))
      ≡ (if key == k then or_later convert val (lookup k (props later)) else lookup k (props later))
unfolding claim lookup
lookup-claim k key convert none later = ground arith
lookup-claim k key convert (some val) later = refl

lookup-end : (k : String) → lookup k (props end) ≡ none
unfolding lookup
lookup-end k = refl

-- An attribute as a claim, undefined where the report lacks it.
abbrev pub shown : {A : Type 0} → (A → Value) → Option A → Value
shown convert none = undefined
shown convert (some val) = convert val

or_undefined-or_later :
    {A : Type 0} (convert : A → Value) (val : Option A)
    → or_undefined (or_later convert val none) ≡ shown convert val
or_undefined-or_later convert none = refl
or_undefined-or_later convert (some val) = refl

-- The claims by which a policy or a handler tells machines apart are the attributes of the report:
-- the report data, the host data and the launch measurement in hexadecimal, the version in decimal,
-- the guest's level as a number, and whether debugging is allowed; a claim is undefined where the
-- report lacks the attribute.
pub member-get_claims :
    (report : SnpReport)
    → (member (get_claims report) "x-ms-sevsnpvm-reportdata"
        ≡ shown as_hex (chain report.attestation (λ a. a.report_data)))
      × (member (get_claims report) "x-ms-sevsnpvm-hostdata"
          ≡ shown as_hex (chain report.attestation (λ a. a.host_data)))
      × (member (get_claims report) "x-ms-sevsnpvm-launchmeasurement"
          ≡ shown as_hex (chain report.attestation (λ a. a.measurement)))
      × (member (get_claims report) "x-ms-ver"
          ≡ shown as_text (chain report.attestation (λ a. a.version)))
      × (member (get_claims report) "x-ms-sevsnpvm-guestsvn"
          ≡ shown as_number (chain report.attestation (λ a. a.guest_svn)))
      × (member (get_claims report) "x-ms-sevsnpvm-is-debuggable"
          ≡ shown as_flag (chain (chain report.attestation (λ a. a.policy)) (λ p. p.debug)))
unfolding get_claims member report_fields digest_claims signature_claims uvm_claims
member-get_claims report = (
  simp (lookup-claim, lookup-end, or_undefined-or_later),
  simp (lookup-claim, lookup-end, or_undefined-or_later),
  simp (lookup-claim, lookup-end, or_undefined-or_later),
  simp (lookup-claim, lookup-end, or_undefined-or_later),
  simp (lookup-claim, lookup-end, or_undefined-or_later),
  simp (lookup-claim, lookup-end, or_undefined-or_later),
)
