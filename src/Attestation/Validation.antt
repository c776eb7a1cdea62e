-- ===== src/Attestation/Validation.antt =====
-- What a validated attestation has passed.
use depa_kms_gcp_oidc.Prelude.{
  ◌≡◌, ◌↔◌, refl, sym, inl, inr, String, true, false, ◌||◌, some, arith, Bool-cases, Option-cases,
}
use mathlib.Core.Path.{subst}
use depa_kms_gcp_oidc.Js.{is_string, Value, str, member, strict_eq, truthy}
use depa_kms_gcp_oidc.ServiceResult.{
  callee_error, internal_error, gcp_attestation_error, ServiceResult, succeeded, returned,
  bind-eq-returned, catching-eq-succeeded, or_throw-eq-returned,
}
use depa_kms_gcp_oidc.Tooling.{Bytes}
use depa_kms_gcp_oidc.Ccf.{Ccf, SnpReport}
use depa_kms_gcp_oidc.Repositories.{Kv}
use depa_kms_gcp_oidc.Policies.KeyRelease.{KeyReleasePolicy, get_key_release_policy_from_map}
use depa_kms_gcp_oidc.Policies.KeyRelease.Verdict.{IsReleased, validate_key_release_policy_sound}
use depa_kms_gcp_oidc.Attestation.{
  get_claims, with_part, with_decoded, with_parts, validate_gcp_attestation,
  validate_azure_attestation, validate_attestation,
}

-- The parts of the attestation decode, and CCF verifies them as this report.
pub record IsVerified (ccf : Ccf) (attestation : Value) (report : SnpReport) : Type 0 where
  pub evidence : Bytes
  pub endorsements : Bytes
  pub uvm_endorsements : Bytes
  pub evidence_decoded : ccf.base64_decode (member attestation "evidence") ≡ some evidence
  pub endorsements_decoded :
      ccf.base64_decode (member attestation "endorsements") ≡ some endorsements
  pub uvm_decoded :
      ccf.base64_decode (member attestation "uvm_endorsements") ≡ some uvm_endorsements
  pub verified :
      ccf.verify_snp_attestation evidence endorsements uvm_endorsements
        (member attestation "endorsed_tcb")
      ≡ some report

with_part_sound :
    (part : Value) (name : String) (rest : ServiceResult Value) {v : Value}
    → with_part part name rest ≡ succeeded v
    → rest ≡ succeeded v
unfolding with_part
with_part_sound part name rest h = ground arith

with_decoded_sound :
    (ccf : Ccf) (part : Value) (name : String) (rest : Bytes → ServiceResult Value) {v : Value}
    → with_decoded ccf part name rest ≡ succeeded v
    → (bytes : Bytes) × (ccf.base64_decode part ≡ some bytes) × (rest bytes ≡ succeeded v)
unfolding with_decoded
with_decoded_sound ccf part name rest h = elim (Option-cases (ccf.base64_decode part)) [
  | inl malformed ↦ let h' = rw (malformed, with_decoded) at h in cc
  | inr (bytes, decoded) ↦ (bytes, decoded, rw (decoded, with_decoded) at h)
]

module _ (ccf : Ccf) (attestation : Value) (name : String)
    (rest : Bytes → Bytes → Bytes → ServiceResult Value) where
  with_parts_sound :
      {v : Value}
      → with_parts ccf attestation name rest ≡ succeeded v
      → (e d u : Bytes) × (ccf.base64_decode (member attestation "evidence") ≡ some e)
        × (ccf.base64_decode (member attestation "endorsements") ≡ some d)
        × (ccf.base64_decode (member attestation "uvm_endorsements") ≡ some u)
        × (rest e d u ≡ succeeded v)
  unfolding with_parts
  with_parts_sound h = elim (Bool-cases (truthy attestation)) [
    | inr missing ↦ let h' = rw (missing, with_parts) at h in cc
    | inl present ↦
        let h₀ = rw (present, with_parts) at h in
        let h₁ = with_part_sound _ _ _ h₀ in
        let h₂ = with_part_sound _ _ _ h₁ in
        let h₃ = with_part_sound _ _ _ h₂ in
        let h₄ = with_part_sound _ _ _ h₃ in
        let (e, decoded_e, h₅) = with_decoded_sound _ _ _ _ h₄ in
        let (d, decoded_d, h₆) = with_decoded_sound _ _ _ _ h₅ in
        let (u, decoded_u, h₇) = with_decoded_sound _ _ _ _ h₆ in
        (e, d, u, decoded_e, decoded_d, decoded_u, h₇)
  ]

-- The attestation was verified, and its claims are what the validation answers.
pub record IsAttested (ccf : Ccf) (attestation claims : Value) : Type 0 where
  pub report : SnpReport
  pub verified : IsVerified ccf attestation report
  pub shown : claims ≡ get_claims report

-- An attestation that is not marked as GCP's is validated only if CCF verifies it and the stored key
-- release policy releases its claims, which are the answer.
pub validate_attestation-azure_sound :
    (ccf : Ccf) (kv : Kv) (attestation provider claims : Value)
    → strict_eq provider (str "gcp") ≡ false
    → validate_attestation ccf kv attestation provider ≡ succeeded claims
    → IsAttested ccf attestation claims
      × ((policy : KeyReleasePolicy) × (get_key_release_policy_from_map kv.key_release
            ≡ returned policy)
          × IsReleased policy claims)
unfolding validate_attestation validate_azure_attestation
validate_attestation-azure_sound ccf kv attestation provider claims azure h =
    let (e, d, u, decoded_e, decoded_d, decoded_u, h₁) =
      with_parts_sound ccf attestation "evidence" _ (rw azure at h) in
    let h₂ = catching-eq-succeeded internal_error 500 _ h₁ in
    let (report, verified, h₃) = bind-eq-returned _ _ h₂ in
    let (policy, stored, h₄) = bind-eq-returned _ _ h₃ in
    let (same, released) = validate_key_release_policy_sound policy (get_claims report) claims h₄ in
    (
      record {
        report = report;
        verified = record {
          evidence = e;
          endorsements = d;
          uvm_endorsements = u;
          evidence_decoded = decoded_e;
          endorsements_decoded = decoded_d;
          uvm_decoded = decoded_u;
          verified = or_throw-eq-returned callee_error _ verified;
        };
        shown = same;
      },
      (policy, stored, subst (IsReleased policy) (sym same) released),
    )

-- Each part is there: it is a text, or any other value that is not falsy.
abbrev pub HasPart : Value → String → Type 0
HasPart attestation name =
    (truthy (member attestation name) || is_string (member attestation name)) ≡ true

pub record HasParts (attestation : Value) : Type 0 where
  pub present : truthy attestation ≡ true
  pub evidence : HasPart attestation "evidence"
  pub endorsements : HasPart attestation "endorsements"
  pub uvm_endorsements : HasPart attestation "uvm_endorsements"
  pub endorsed_tcb : HasPart attestation "endorsed_tcb"

with_part_present :
    (part : Value) (name : String) (rest : ServiceResult Value)
    → (truthy part || is_string part) ≡ true
    → with_part part name rest ≡ rest
unfolding with_part
with_part_present part name rest present = rw present refl

with_part_given :
    (part : Value) (name : String) (rest : ServiceResult Value) {v : Value}
    → with_part part name rest ≡ succeeded v
    → (truthy part || is_string part) ≡ true
unfolding with_part
with_part_given part name rest h = ground arith

module _ (ccf : Ccf) (attestation claims : Value) where
  gcp_sound :
      validate_gcp_attestation ccf attestation ≡ succeeded claims
      → IsAttested ccf attestation claims
  unfolding validate_gcp_attestation
  gcp_sound h =
      let (e, d, u, decoded_e, decoded_d, decoded_u, h₁) =
        with_parts_sound ccf attestation "endorsements" _ h in
      let h₂ = catching-eq-succeeded gcp_attestation_error 500 _ h₁ in
      let (report, verified, h₃) = bind-eq-returned _ _ h₂ in
      record {
        report = report;
        verified = record {
          evidence = e;
          endorsements = d;
          uvm_endorsements = u;
          evidence_decoded = decoded_e;
          endorsements_decoded = decoded_d;
          uvm_decoded = decoded_u;
          verified = or_throw-eq-returned callee_error _ verified;
        };
        shown = cc h₃;
      }

  gcp_complete :
      HasParts attestation
      → IsAttested ccf attestation claims
      → validate_gcp_attestation ccf attestation ≡ succeeded claims
  unfolding validate_gcp_attestation with_parts with_part with_decoded
  gcp_complete p a =
      rw
        (
          p.present,
          p.evidence,
          p.endorsements,
          p.uvm_endorsements,
          p.endorsed_tcb,
          a.verified.evidence_decoded,
          with_decoded,
          a.verified.endorsements_decoded,
          a.verified.uvm_decoded,
          a.verified.verified,
          ← a.shown,
        )
        refl

-- An attestation that is marked as GCP's and has its parts is validated exactly if CCF verifies it;
-- the answer is its claims. No key release policy is asked.
pub validate_attestation-gcp_iff :
    (ccf : Ccf) (kv : Kv) (attestation claims : Value)
    → HasParts attestation
    → (validate_attestation ccf kv attestation (str "gcp") ≡ succeeded claims)
      ↔ IsAttested ccf attestation claims
unfolding validate_attestation strict_eq
validate_attestation-gcp_iff ccf kv attestation claims parts =
    (gcp_sound ccf attestation claims, gcp_complete ccf attestation claims parts)
