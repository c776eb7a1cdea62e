-- ===== src/Endpoints/PrivateKeys/Release.antt =====
-- What has been checked when `unwrapKey` gives out a private key.
use depa_kms_gcp_oidc.Prelude.{
  ℕ, ◌≡◌, refl, ap, sym, ◌∙◌, inl, inr, String, Bool, true, false, not, none, some, List,
  Bool-cases, Option-cases, if◌then◌else◌,
}
use mathlib.Core.Path.{subst}
use depa_kms_gcp_oidc.Js.{Value, str, member, truthy, is_undefined, to_string, codes, is_prefix}
use depa_kms_gcp_oidc.KeyItem.{KeyItem}
use depa_kms_gcp_oidc.Tooling.{is_pem_public_key}
use depa_kms_gcp_oidc.Ccf.{Ccf}
use depa_kms_gcp_oidc.ServiceResult.{
  ErrorMessage, type_error, bad_body, missing_wrapped_kid, not_pem, kid_not_found, kid_expired,
  wrapping_key_hash_mismatch, endpoint_exception, succeeded, Throws, returned, or_throw,
  or_throw-eq-returned, result_body, success,
}
use depa_kms_gcp_oidc.Policies.KeyRotation.{is_expired}
use depa_kms_gcp_oidc.Repositories.{Kv, get_key, receipt}
use depa_kms_gcp_oidc.Authorization.{Request, is_authenticated}
use depa_kms_gcp_oidc.Attestation.{validate_attestation}
use depa_kms_gcp_oidc.Endpoints.Handler.{
  pure, guard, or_fail, or_escape, or_fail_with, passes, bind-eq-pure, pure-injective,
  guard-eq-pure, or_fail-eq-pure, or_escape-eq-pure, or_fail_with-eq-pure, passes-eq-pure,
  passes-success, result_body-eq-some,
}
use depa_kms_gcp_oidc.Endpoints.ServiceRequest.{ServiceRequest, service_request, Format, format_of}
use depa_kms_gcp_oidc.Endpoints.PrivateKeys.{
  attested_body, provider_of, or_empty, named_fmt, text_of, pem_key, request_has_wrapping_key,
  unwrap_payload, with_receipt, unwrap_stored, unwrap_key, UnwrapResponse,
}
use depa_kms_gcp_oidc.Endpoints.KeyGeneration.{hex_hash}

-- The key `kid` is in the store and has not expired, and the answer is that key under the wrapping
-- key and in the format, with its receipt.
pub record IsUnwrapped (ccf : Ccf) (now : ℕ) (kv : Kv) (fmt : Format) (wrapping_key : List ℕ)
    (kid : String) (response : UnwrapResponse) : Type 0 where
  pub item : KeyItem
  pub stored : get_key kid kv ≡ some item
  pub deprecated : Bool
  pub valid : is_expired kv.key_rotation now item ≡ returned (false, deprecated)
  pub receipted : response.receipt ≡ or_empty (receipt ccf kid)
  pub wrapped :
      unwrap_payload ccf fmt wrapping_key (with_receipt response.receipt item)
      ≡ returned response.wrapped

pub text_of-eq-returned : (v : Value) {s : String} → text_of v ≡ returned s → v ≡ str s
unfolding text_of
text_of-eq-returned (str s) h = ap str (cc h)
text_of-eq-returned _ h = cc

accepted_verdict :
    (r : Throws (Bool × Bool)) (verdict : Bool × Bool) (e : ErrorMessage) (c : ℕ) {u : Unit {0}}
    → or_escape r ≡ pure verdict
    → guard (not verdict.0) e c ≡ pure u
    → r ≡ returned (false, verdict.1)
accepted_verdict r (true, deprecated) e c h g = cc
accepted_verdict r (false, deprecated) e c h g = or_escape-eq-pure r h

module _ (ccf : Ccf) (now : ℕ) (kv : Kv) where
  unwrap_stored_sound :
      (fmt : Format) (wrapping_key : List ℕ) (wrapped_kid : Value) (response : UnwrapResponse)
      → unwrap_stored ccf now kv fmt wrapping_key wrapped_kid ≡ pure response
      → (kid : String) × (wrapped_kid ≡ str kid)
        × IsUnwrapped ccf now kv fmt wrapping_key kid response
  unfolding unwrap_stored
  unwrap_stored_sound fmt wrapping_key wrapped_kid response h =
      let (kid, h₁, k₁) = bind-eq-pure (or_escape (text_of wrapped_kid)) _ h in
      let (item, h₂, k₂) = bind-eq-pure (or_fail (get_key kid kv) (kid_not_found kid) 404) _ k₁ in
      let (verdict, h₃, k₃) = bind-eq-pure (or_escape (is_expired kv.key_rotation now item)) _ k₂ in
      let (u, h₄, k₄) = bind-eq-pure (guard (not verdict.0) (kid_expired kid) 410) _ k₃ in
      let shown = or_empty (receipt ccf kid) in
      let sealed = unwrap_payload ccf fmt wrapping_key (with_receipt shown item) in
      let (wrapped, h₅, k₅) = bind-eq-pure (or_fail_with endpoint_exception sealed) _ k₄ in
      (
        kid,
        text_of-eq-returned wrapped_kid (or_escape-eq-pure _ h₁),
        record {
          item = item;
          stored = or_fail-eq-pure _ _ _ h₂;
          deprecated = verdict.1;
          valid = accepted_verdict _ _ _ _ h₃ h₄;
          receipted = sym (ap (λ r. r.receipt) (pure-injective k₅));
          wrapped =
              subst
                (λ r.
                  unwrap_payload ccf fmt wrapping_key (with_receipt r.receipt item)
                  ≡ returned r.wrapped)
                (pure-injective k₅) (or_fail_with-eq-pure _ _ h₅);
        },
      )

pem_key_sound :
    (v : Value) {buffer : List ℕ}
    → pem_key v ≡ pure buffer
    → (s : String) × (v ≡ str s) × (buffer ≡ codes s) × (is_pem_public_key buffer ≡ true)
unfolding pem_key to_string
pem_key_sound v h =
    let (printed, h₁, k₁) = bind-eq-pure (or_escape (or_throw type_error (to_string v))) _ h in
    let (u, h₂, k₂) = bind-eq-pure (guard (is_pem_public_key (codes printed)) not_pem 400) _ k₁ in
    let (s, h₃, k₃) = bind-eq-pure (or_escape (text_of v)) _ k₂ in
    let text = text_of-eq-returned v (or_escape-eq-pure _ h₃) in
    let same : to_string v ≡ some printed =
      or_throw-eq-returned type_error _ (or_escape-eq-pure _ h₁) in
    let shown : s ≡ printed = cc (sym (ap to_string text) ∙ same) in
    let buffer = pure-injective k₃ in
    (
      s,
      text,
      sym buffer,
      subst (λ b. is_pem_public_key b ≡ true) (ap codes (sym shown) ∙ buffer)
          (guard-eq-pure _ _ _ h₂),
    )

request_has_wrapping_key_sound :
    (v : Value) {buffer : List ℕ}
    → request_has_wrapping_key v ≡ pure buffer
    → (s : String) × (v ≡ str s) × (buffer ≡ codes s) × (is_pem_public_key buffer ≡ true)
unfolding request_has_wrapping_key
request_has_wrapping_key_sound v h = elim (Bool-cases (truthy v)) [
  | inl given ↦ pem_key_sound v (rw given at h)
  | inr missing ↦ let h' = rw missing at h in cc
]

-- The request is built and bound to an attested client: it passes the authentication, its attestation is
-- validated, and the attested report data starts with the hash of the wrapping key.
pub record IsBound (ccf : Ccf) (kv : Kv) (request : Request) (wrapping_key : String) : Type 0 where
  pub body : Value
  pub claims : Value
  pub report_data : String
  pub fmt : Format
  pub sr : ServiceRequest
  pub constructed : service_request kv request ≡ returned sr
  pub format : format_of sr ≡ some fmt
  pub given : attested_body sr ≡ some (body, member body "attestation")
  pub authenticated : success (is_authenticated kv request) ≡ true
  pub asked : member body "wrappingKey" ≡ str wrapping_key
  pub pem : is_pem_public_key (codes wrapping_key) ≡ true
  pub attested :
      validate_attestation ccf kv (member body "attestation") (provider_of body) ≡ succeeded claims
  pub reported : member claims "x-ms-sevsnpvm-reportdata" ≡ str report_data
  pub bound : is_prefix (codes (hex_hash ccf (codes wrapping_key))) (codes report_data) ≡ true

of_test :
    (b : Bool) (body : Value) {given : Value × Value}
    → (if b then some (body, member body "attestation") else none) ≡ some given
    → given ≡ (given.0, member given.0 "attestation")
of_test true body {given} h =
    let same : (body, member body "attestation") ≡ given = cc h in
    subst (λ g. g ≡ (g.0, member g.0 "attestation")) same refl
of_test false body h = cc

attested_body-eq-some :
    (sr : ServiceRequest) {given : Value × Value}
    → attested_body sr ≡ some given
    → given ≡ (given.0, member given.0 "attestation")
unfolding attested_body
attested_body-eq-some sr h = elim (Option-cases sr.body) [
  | inl missing ↦ let h' = rw (missing, attested_body) at h in cc
  | inr (body, present) ↦ of_test _ _ (rw (present, attested_body) at h)
]

-- `unwrapKey` gives out a key only to an attested client: the request passes the authentication, its
-- attestation is validated, the attested report data starts with the hash of the PEM wrapping key
-- of the request, and the answer is the stored key that the request names, not expired, under that
-- wrapping key, in the format that the request asks for and with its receipt.
pub unwrap_key_sound :
    (ccf : Ccf) (now : ℕ) (kv : Kv) (request : Request) (response : UnwrapResponse)
    → unwrap_key ccf now kv request ≡ pure response
    → (wrapping_key kid : String) × (bound : IsBound ccf kv request wrapping_key) × (member
          bound.body "wrappedKid"
        ≡ str kid)
      × IsUnwrapped ccf now kv bound.fmt (codes wrapping_key) kid response
unfolding unwrap_key named_fmt
unwrap_key_sound ccf now kv request response h =
    let (sr, h₀, k₀) = bind-eq-pure (or_escape (service_request kv request)) _ h in
    let (given, h₁, k₁) = bind-eq-pure (or_fail (attested_body sr) bad_body 400) _ k₀ in
    let (caller, h₂, k₂) = bind-eq-pure (passes (is_authenticated kv request)) _ k₁ in
    let (u, h₃, k₃) =
      bind-eq-pure
        (guard (not (is_undefined (member given.0 "wrappedKid"))) missing_wrapped_kid 400) _ k₂ in
    let (wrapping_key, h₄, k₄) =
      bind-eq-pure (request_has_wrapping_key (member given.0 "wrappingKey")) _ k₃ in
    let (fmt, h₅, k₅) = bind-eq-pure (named_fmt sr) _ k₄ in
    let validated = validate_attestation ccf kv given.1 (provider_of given.0) in
    let (attested, h₆, k₆) = bind-eq-pure (passes validated) _ k₅ in
    let (claims, h₇, k₇) =
      bind-eq-pure (or_escape (or_throw type_error (result_body attested))) _ k₆ in
    let (report_data, h₈, k₈) =
      bind-eq-pure (or_escape (text_of (member claims "x-ms-sevsnpvm-reportdata"))) _ k₇ in
    let prefixed = is_prefix (codes (hex_hash ccf wrapping_key)) (codes report_data) in
    let (v, h₉, k₉) = bind-eq-pure (guard prefixed wrapping_key_hash_mismatch 400) _ k₈ in
    let (kid, named, unwrapped) =
      unwrap_stored_sound ccf now kv fmt wrapping_key (member given.0 "wrappedKid") response k₉ in
    let (s, asked, buffer, pem) = request_has_wrapping_key_sound _ h₄ in
    let present = or_fail-eq-pure _ _ _ h₁ in
    let shape = attested_body-eq-some sr present in
    let body_of =
      result_body-eq-some _ (or_throw-eq-returned type_error _ (or_escape-eq-pure _ h₇)) in
    (
      s,
      kid,
      record {
        body = given.0;
        claims = claims;
        report_data = report_data;
        fmt = fmt;
        sr = sr;
        constructed = or_escape-eq-pure _ h₀;
        format = or_fail-eq-pure _ _ _ h₅;
        given = present ∙ ap some shape;
        authenticated = passes-success _ h₂;
        asked = asked;
        pem = subst (λ b. is_pem_public_key b ≡ true) buffer pem;
        attested =
            subst (λ a. validate_attestation ccf kv a (provider_of given.0) ≡ succeeded claims)
              (ap (λ g. g.1) shape) (passes-eq-pure _ h₆ ∙ body_of);
        reported = text_of-eq-returned _ (or_escape-eq-pure _ h₈);
        bound =
            subst (λ b. is_prefix (codes (hex_hash ccf b)) (codes report_data) ≡ true) buffer
              (guard-eq-pure _ _ _ h₉);
      },
      named,
      subst (λ b. IsUnwrapped ccf now kv fmt b kid response) buffer unwrapped,
    )
