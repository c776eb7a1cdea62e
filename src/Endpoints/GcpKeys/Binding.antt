-- ===== src/Endpoints/GcpKeys/Binding.antt =====
-- What has been checked when `unwrapKeyGcp` gives out a private key.
use depa_kms_gcp_oidc.Prelude.{ℕ, ◌≡◌, ap, sym, ◌∙◌, String, true, some, List, ◌==◌, eq_iff}
use mathlib.Core.Path.{subst}
use depa_kms_gcp_oidc.Js.{str, truthy, to_string, codes}
use depa_kms_gcp_oidc.KeyItem.{KeyItem, without_receipt}
use depa_kms_gcp_oidc.Tooling.{Bytes, is_pem_public_key, unescape_newlines}
use depa_kms_gcp_oidc.Ccf.{Ccf, jwk}
use depa_kms_gcp_oidc.ServiceResult.{
  callee_error, missing_wrapping_key, missing_eat_nonce, eat_nonce_mismatch, no_keys_in_store,
  kid_not_found, endpoint_exception, returned, or_throw, or_throw-eq-returned, success,
}
use depa_kms_gcp_oidc.Repositories.{Kv, latest_item, get_key}
use depa_kms_gcp_oidc.Authorization.{Request, is_authenticated}
use depa_kms_gcp_oidc.Endpoints.Handler.{
  pure, guard, or_fail, or_escape, or_fail_with, passes, bind-eq-pure, pure-injective,
  guard-eq-pure, or_fail-eq-pure, or_escape-eq-pure, or_fail_with-eq-pure, passes-success,
}
use depa_kms_gcp_oidc.Endpoints.ServiceRequest.{ServiceRequest, service_request}
use depa_kms_gcp_oidc.Endpoints.PrivateKeys.{text_of}
use depa_kms_gcp_oidc.Endpoints.KeyGeneration.{hex_hash}
use depa_kms_gcp_oidc.Endpoints.PrivateKeys.Release.{text_of-eq-returned}
use depa_kms_gcp_oidc.Endpoints.GcpKeys.{
  GcpResponse, wrapping_key_of, eat_nonce_claim, expected_nonce, passes_pem, wrap_latest,
  unwrap_key_gcp,
}

-- The answer is the newest key of the store, without its receipt, under the wrapping key.
pub record IsLatest (ccf : Ccf) (kv : Kv) (wrapping_key : List ℕ) (response : GcpResponse)
    : Type 0 where
  pub item : KeyItem
  pub sealed : Bytes
  pub newest : (latest_item kv).1 ≡ some response.wrapped_kid
  pub stored : get_key response.wrapped_kid kv ≡ some item
  pub wrapped : ccf.wrap_key (jwk (without_receipt item)) wrapping_key ≡ some sealed
  pub shown : response.wrapped ≡ ccf.base64_encode sealed

wrap_latest_sound :
    (ccf : Ccf) (kv : Kv) (wrapping_key : List ℕ) (response : GcpResponse)
    → wrap_latest ccf kv wrapping_key ≡ pure response
    → IsLatest ccf kv wrapping_key response
unfolding wrap_latest
wrap_latest_sound ccf kv wrapping_key response h =
    let (kid, h₁, k₁) = bind-eq-pure (or_fail (latest_item kv).1 no_keys_in_store 400) _ h in
    let (item, h₂, k₂) = bind-eq-pure (or_fail (get_key kid kv) (kid_not_found kid) 404) _ k₁ in
    let wrapping = or_throw callee_error (ccf.wrap_key (jwk (without_receipt item)) wrapping_key) in
    let (sealed, h₃, k₃) = bind-eq-pure (or_fail_with endpoint_exception wrapping) _ k₂ in
    let same = pure-injective k₃ in
    let named : kid ≡ response.wrapped_kid = ap (λ r. r.wrapped_kid) same in
    record {
      item = item;
      sealed = sealed;
      newest = or_fail-eq-pure _ _ _ h₁ ∙ ap some named;
      stored = subst (λ k. get_key k kv ≡ some item) named (or_fail-eq-pure _ _ _ h₂);
      wrapped = or_throw-eq-returned callee_error _ (or_fail_with-eq-pure _ _ h₃);
      shown = sym (ap (λ r. r.wrapped) same);
    }

-- The request is built and passes the authentication, and the nonce of its token is the hash of its wrapping key.
pub record IsBound (ccf : Ccf) (kv : Kv) (request : Request) (wrapping_key : String) : Type 0 where
  pub sr : ServiceRequest
  pub constructed : service_request kv request ≡ returned sr
  pub authenticated : success (is_authenticated kv request) ≡ true
  pub asked : wrapping_key_of request ≡ returned (str wrapping_key)
  pub pem : is_pem_public_key (codes wrapping_key) ≡ true
  pub bound :
      expected_nonce (eat_nonce_claim request)
      ≡ str (hex_hash ccf (unescape_newlines (codes wrapping_key)))

passes_pem_sound :
    (s : String) {u : Unit {0}} → passes_pem (str s) ≡ pure u → is_pem_public_key (codes s) ≡ true
unfolding passes_pem to_string
passes_pem_sound s h = guard-eq-pure _ _ _ h

-- `unwrapKeyGcp` gives out a key only if the request passes the authentication, its wrapping key
-- is PEM and the nonce of its token is the hash of that key with its newlines unescaped; the answer is
-- the newest key of the store under the unescaped wrapping key.
pub unwrap_key_gcp_sound :
    (ccf : Ccf) (kv : Kv) (request : Request) (response : GcpResponse)
    → unwrap_key_gcp ccf kv request ≡ pure response
    → (wrapping_key : String) × IsBound ccf kv request wrapping_key
      × IsLatest ccf kv (unescape_newlines (codes wrapping_key)) response
unfolding unwrap_key_gcp
unwrap_key_gcp_sound ccf kv request response h =
    let (sr, h₀, k₀) = bind-eq-pure (or_escape (service_request kv request)) _ h in
    let (caller, h₁, k₁) = bind-eq-pure (passes (is_authenticated kv request)) _ k₀ in
    let (value, h₂, k₂) = bind-eq-pure (or_escape (wrapping_key_of request)) _ k₁ in
    let (_, _, k₃) = bind-eq-pure (guard (truthy value) missing_wrapping_key 400) _ k₂ in
    let (_, h₄, k₄) = bind-eq-pure (passes_pem value) _ k₃ in
    let claim = eat_nonce_claim request in
    let (_, _, k₅) = bind-eq-pure (guard (truthy claim) missing_eat_nonce 400) _ k₄ in
    let (s, h₆, k₆) = bind-eq-pure (or_escape (text_of value)) _ k₅ in
    let (nonce, h₇, k₇) = bind-eq-pure (or_escape (text_of (expected_nonce claim))) _ k₆ in
    let hash = hex_hash ccf (unescape_newlines (codes s)) in
    let (_, h₈, k₈) = bind-eq-pure (guard (hash == nonce) eat_nonce_mismatch 400) _ k₇ in
    let text = text_of-eq-returned value (or_escape-eq-pure _ h₆) in
    let announced = text_of-eq-returned _ (or_escape-eq-pure _ h₇) in
    (
      s,
      record {
        sr = sr;
        constructed = or_escape-eq-pure _ h₀;
        authenticated = passes-success _ h₁;
        asked = or_escape-eq-pure _ h₂ ∙ ap returned text;
        pem = passes_pem_sound s (subst (λ v. passes_pem v ≡ pure tt) text h₄);
        bound = announced ∙ ap str (sym ((eq_iff hash nonce).0 (guard-eq-pure _ _ _ h₈)));
      },
      wrap_latest_sound ccf kv _ response k₈,
    )
