-- ===== src/Endpoints/PrivateKeys/Pending.antt =====
-- `unwrapKey` and the status 202, which says that the receipt of a key is still being fetched.
use depa_kms_gcp_oidc.Prelude.{ℕ, ◌≢◌, inl, inr, not, List, Bool-cases}
use depa_kms_gcp_oidc.Js.{Value, member, truthy, is_undefined, to_string, codes, is_prefix}
use depa_kms_gcp_oidc.Tooling.{is_pem_public_key}
use depa_kms_gcp_oidc.Ccf.{Ccf}
use depa_kms_gcp_oidc.ServiceResult.{
  type_error, bad_body, missing_wrapped_kid, not_pem, kid_not_found, kid_expired,
  wrapping_key_hash_mismatch, endpoint_exception, accepted, returned, or_throw, result_body,
}
use depa_kms_gcp_oidc.Policies.KeyRotation.{is_expired}
use depa_kms_gcp_oidc.Repositories.{Kv, get_key, receipt}
use depa_kms_gcp_oidc.Authorization.{Request, is_authenticated}
use depa_kms_gcp_oidc.Attestation.{validate_attestation}
use depa_kms_gcp_oidc.Endpoints.Handler.{
  guard, or_fail, or_escape, or_fail_with, passes, bind-eq-accepted, pure-ne-accepted,
  guard-ne-accepted, or_fail-ne-accepted, or_escape-ne-accepted, or_fail_with-ne-accepted,
  passes-ne-accepted,
}
use depa_kms_gcp_oidc.Endpoints.ServiceRequest.{service_request, Format}
use depa_kms_gcp_oidc.Endpoints.PrivateKeys.{
  attested_body, provider_of, or_empty, named_fmt, text_of, pem_key, request_has_wrapping_key,
  unwrap_payload, with_receipt, unwrap_stored, unwrap_key,
}
use depa_kms_gcp_oidc.Endpoints.KeyGeneration.{hex_hash}

pem_key-ne-accepted : (v : Value) → pem_key v ≢ returned accepted
unfolding pem_key
pem_key-ne-accepted v h =
    let (printed, _, k₁) =
      bind-eq-accepted (or_escape (or_throw type_error (to_string v))) _ (or_escape-ne-accepted _)
        h in
    let (_, _, k₂) =
      bind-eq-accepted (guard (is_pem_public_key (codes printed)) not_pem 400) _
        (guard-ne-accepted _ _ _) k₁ in
    let (s, _, k₃) = bind-eq-accepted (or_escape (text_of v)) _ (or_escape-ne-accepted _) k₂ in
    pure-ne-accepted _ k₃

request_has_wrapping_key-ne-accepted : (v : Value) → request_has_wrapping_key v ≢ returned accepted
unfolding request_has_wrapping_key
request_has_wrapping_key-ne-accepted v h = elim (Bool-cases (truthy v)) [
  | inl given ↦ pem_key-ne-accepted v (rw given at h)
  | inr missing ↦ let h' = rw missing at h in cc
]

module _ (ccf : Ccf) (now : ℕ) (kv : Kv) where
  unwrap_stored-ne-accepted :
      (fmt : Format) (wrapping_key : List ℕ) (wrapped_kid : Value)
      → unwrap_stored ccf now kv fmt wrapping_key wrapped_kid ≢ returned accepted
  unfolding unwrap_stored
  unwrap_stored-ne-accepted fmt wrapping_key wrapped_kid h =
      let (kid, _, k₁) =
        bind-eq-accepted (or_escape (text_of wrapped_kid)) _ (or_escape-ne-accepted _) h in
      let (item, _, k₂) =
        bind-eq-accepted (or_fail (get_key kid kv) (kid_not_found kid) 404) _
          (or_fail-ne-accepted _ _ _) k₁ in
      let (verdict, _, k₃) =
        bind-eq-accepted (or_escape (is_expired kv.key_rotation now item)) _
          (or_escape-ne-accepted _) k₂ in
      let (_, _, k₄) =
        bind-eq-accepted (guard (not verdict.0) (kid_expired kid) 410) _ (guard-ne-accepted _ _ _)
          k₃ in
      let shown = or_empty (receipt ccf kid) in
      let sealed = unwrap_payload ccf fmt wrapping_key (with_receipt shown item) in
      let (wrapped, _, k₅) =
        bind-eq-accepted (or_fail_with endpoint_exception sealed) _ (or_fail_with-ne-accepted _ _)
          k₄ in
      pure-ne-accepted _ k₅

  -- `unwrapKey` never answers with status 202, also while the receipt of the key is not there yet.
  pub unwrap_key-ne-accepted :
      (request : Request) → unwrap_key ccf now kv request ≢ returned accepted
  unfolding unwrap_key named_fmt
  unwrap_key-ne-accepted request h =
      let (sr, _, k₀) =
        bind-eq-accepted (or_escape (service_request kv request)) _ (or_escape-ne-accepted _) h in
      let (given, _, k₁) =
        bind-eq-accepted (or_fail (attested_body sr) bad_body 400) _ (or_fail-ne-accepted _ _ _)
          k₀ in
      let (_, _, k₂) =
        bind-eq-accepted (passes (is_authenticated kv request)) _ (passes-ne-accepted _) k₁ in
      let (_, _, k₃) =
        bind-eq-accepted
          (guard (not (is_undefined (member given.0 "wrappedKid"))) missing_wrapped_kid 400) _
          (guard-ne-accepted _ _ _) k₂ in
      let (wrapping_key, _, k₄) =
        bind-eq-accepted (request_has_wrapping_key (member given.0 "wrappingKey")) _
          (request_has_wrapping_key-ne-accepted _) k₃ in
      let (fmt, _, k₅) = bind-eq-accepted (named_fmt sr) _ (or_fail-ne-accepted _ _ _) k₄ in
      let validated = validate_attestation ccf kv given.1 (provider_of given.0) in
      let (attested, _, k₆) = bind-eq-accepted (passes validated) _ (passes-ne-accepted _) k₅ in
      let (claims, _, k₇) =
        bind-eq-accepted (or_escape (or_throw type_error (result_body attested))) _
          (or_escape-ne-accepted _) k₆ in
      let (report_data, _, k₈) =
        bind-eq-accepted (or_escape (text_of (member claims "x-ms-sevsnpvm-reportdata"))) _
          (or_escape-ne-accepted _) k₇ in
      let prefixed = is_prefix (codes (hex_hash ccf wrapping_key)) (codes report_data) in
      let (_, _, k₉) =
        bind-eq-accepted (guard prefixed wrapping_key_hash_mismatch 400) _ (guard-ne-accepted _ _ _)
          k₈ in
      unwrap_stored-ne-accepted fmt wrapping_key (member given.0 "wrappedKid") k₉
