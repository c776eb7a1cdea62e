-- ===== src/Attestation/Vtpm/Measurements.antt =====
-- A key release policy that lists GCP's launch measurements, as the table of measurements is meant to
-- be used.
use mathlib.Core.Path.{subst}
use depa_kms_gcp_oidc.Prelude.{
  ◌≡◌, ◌↔◌, refl, sym, ap, ◌∙◌, ◌⊎◌, inl, inr, String, Option, none, some, List, [], ◌∷◌, All,
}
use depa_kms_gcp_oidc.Js.{
  Value, undefined, str, arr, obj, Values, nil, cons, elems, end, field, member, to_string,
  is_nullish, entries, as_array,
}
use depa_kms_gcp_oidc.ServiceResult.{succeeded, returned}
use depa_kms_gcp_oidc.Tooling.{Bytes, array_buffer_to_hex}
use depa_kms_gcp_oidc.Ccf.{SnpReport}
use depa_kms_gcp_oidc.Policies.KeyRelease.{KeyReleasePolicy, add, validate_key_release_policy}
use depa_kms_gcp_oidc.Policies.KeyRelease.Claims.{IsAmong, HasTexts, Admits}
use depa_kms_gcp_oidc.Policies.KeyRelease.Verdict.{
  IsReleased, validate_key_release_policy_sound, validate_key_release_policy_complete,
}
use depa_kms_gcp_oidc.Attestation.{chain, as_hex, get_claims}
use depa_kms_gcp_oidc.Attestation.Claims.{shown, member-get_claims}

abbrev launch_measurement : String
launch_measurement = "x-ms-sevsnpvm-launchmeasurement"

abbrev texts : List String → Values
texts [] = nil
texts (s ∷ ss) = cons (str s) (texts ss)

-- The policy that asks for one of these measurements.
abbrev pub policy_of : List String → KeyReleasePolicy
policy_of measurements = record {
  type = add;
  claims = obj (field launch_measurement (arr (texts measurements)) end);
  gte = undefined;
  gt = undefined;
}

HasTexts-texts : (ss : List String) → HasTexts (elems (texts ss))
unfolding to_string
HasTexts-texts [] = tt
HasTexts-texts (s ∷ ss) = ((s, refl), HasTexts-texts ss)

abbrev pub IsOneOf : String → List String → Type 0
IsOneOf t [] = ⊥
IsOneOf t (s ∷ ss) = (t ≡ s) ⊎ IsOneOf t ss

IsOneOf-of_among : (t : String) (ss : List String) → IsAmong t (elems (texts ss)) → IsOneOf t ss
unfolding to_string
IsOneOf-of_among t [] among = absurd among
IsOneOf-of_among t (s ∷ ss) (inl same) = inl (sym (cc same))
IsOneOf-of_among t (s ∷ ss) (inr among) = inr (IsOneOf-of_among t ss among)

IsAmong-of_IsOneOf : (t : String) (ss : List String) → IsOneOf t ss → IsAmong t (elems (texts ss))
unfolding to_string
IsAmong-of_IsOneOf t [] one = absurd one
IsAmong-of_IsOneOf t (s ∷ ss) (inl same) = inl (ap some (sym same))
IsAmong-of_IsOneOf t (s ∷ ss) (inr one) = inr (IsAmong-of_IsOneOf t ss one)

-- The report has a measurement, whose hexadecimal text is one of these.
abbrev pub IsMeasured : List String → SnpReport → Type 0
IsMeasured measurements report =
    (measured : Bytes) × (chain report.attestation (λ a. a.measurement) ≡ some measured)
    × IsOneOf (array_buffer_to_hex measured) measurements

hex_of_printed :
    (o : Option Bytes) {t : String}
    → to_string (shown as_hex o) ≡ some t
    → (measured : Bytes) × (o ≡ some measured) × (t ≡ array_buffer_to_hex measured)
unfolding to_string
hex_of_printed none h = cc
hex_of_printed (some measured) h = (measured, refl, cc h)

measured_claim :
    (report : SnpReport)
    → member (get_claims report) launch_measurement
      ≡ shown as_hex (chain report.attestation (λ a. a.measurement))
measured_claim report = let (_, _, e, _, _, _) = member-get_claims report in e

-- The one claim of the policy.
abbrev wanted : List String → String × Value
wanted measurements = (launch_measurement, arr (texts measurements))

Admits-of_released :
    (measurements : List String) (claims : Value)
    → IsReleased (policy_of measurements) claims
    → Admits claims (wanted measurements)
unfolding entries
Admits-of_released measurements claims released =
    let same : released.keys ≡ wanted measurements ∷ [] = sym (cc (released.listed)) in
    let (admits, _) = subst (All (Admits claims)) same released.admitted in admits

IsAmong-of_Admits :
    (measurements : List String) (claims : Value) (admits : Admits claims (wanted measurements))
    → IsAmong admits.text (elems (texts measurements))
unfolding as_array
IsAmong-of_Admits measurements claims admits =
    let same : admits.wanted ≡ elems (texts measurements) = sym (cc (admits.listed)) in
    subst (IsAmong admits.text) same admits.among

-- A policy of launch measurements without bounds releases exactly the reports whose measurement, in
-- hexadecimal, is one of them.
pub policy_of-releases_iff :
    (measurements : List String) (report : SnpReport)
    → (validate_key_release_policy (policy_of measurements) (get_claims report)
        ≡ returned (succeeded (get_claims report)))
      ↔ IsMeasured measurements report
unfolding is_nullish entries as_array get_claims to_string
policy_of-releases_iff measurements report =
    let claims = get_claims report in
    let attribute = chain report.attestation (λ a. a.measurement) in
    (
      λ h.
          let (_, released) =
            validate_key_release_policy_sound (policy_of measurements) claims claims h in
          let admits = Admits-of_released measurements claims released in
          let (measured, there, same) =
            hex_of_printed attribute
              (ap to_string (sym (measured_claim report)) ∙ admits.printed) in
          (
            measured,
            there,
            subst (λ t. IsOneOf t measurements) same
                (IsOneOf-of_among admits.text measurements
                  (IsAmong-of_Admits measurements claims admits)),
          ),
      λ m.
          validate_key_release_policy_complete (policy_of measurements) claims
            (
              wanted measurements ∷ [],
              refl,
              ((elems (texts measurements), refl, HasTexts-texts measurements), tt),
            )
            (record {
              keys = wanted measurements ∷ [];
              listed = refl;
              nonempty = refl;
              attested = refl;
              admitted = (
                record {
                  wanted = elems (texts measurements);
                  listed = refl;
                  text = array_buffer_to_hex m.0;
                  printed = ap to_string (measured_claim report ∙ ap (shown as_hex) m.1);
                  among = IsAmong-of_IsOneOf (array_buffer_to_hex m.0) measurements m.2;
                },
                tt,
              );
              decided = tt;
            }),
    )
