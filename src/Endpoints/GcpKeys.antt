-- ===== src/Endpoints/GcpKeys.antt =====
-- src/endpoints/keyEndpoint.ts: `unwrapKeyGcp`, which gives the latest private key to a caller with a
-- token that is bound to the wrapping key by its nonce. The debug headers are left out.
pub mod Answer
pub mod Binding
mod Tests
use depa_kms_gcp_oidc.Prelude.{
  ℕ, String, Bool, Option, none, some, List, [], ◌∷◌, ◌==◌, if◌then◌else◌,
}
use depa_kms_gcp_oidc.Js.{
  Value, obj, end, undefined, str, Values, nil, cons, member, truthy, is_nullish, as_array,
  to_string, codes,
}
use depa_kms_gcp_oidc.KeyItem.{KeyItem, without_receipt}
use depa_kms_gcp_oidc.Tooling.{is_pem_public_key, unescape_newlines}
use depa_kms_gcp_oidc.Ccf.{Ccf, jwk}
use depa_kms_gcp_oidc.ServiceResult.{
  type_error, callee_error, missing_wrapping_key, not_pem, missing_eat_nonce, eat_nonce_mismatch,
  no_keys_in_store, kid_not_found, endpoint_exception, Throws, returned, thrown, or_throw,
}
use depa_kms_gcp_oidc.ServiceResult
use depa_kms_gcp_oidc.Repositories.{Kv, latest_item, get_key, receipt}
use depa_kms_gcp_oidc.Authorization.{Caller, jwt, Request, is_authenticated}
use depa_kms_gcp_oidc.Endpoints.Handler.{
  Handler, ◌>>=◌, ◌>>◌, pure, guard, or_fail, or_escape, or_fail_with, passes,
}
use depa_kms_gcp_oidc.Endpoints.ServiceRequest.{service_request}
use depa_kms_gcp_oidc.Endpoints.PrivateKeys.{or_empty, text_of}
use depa_kms_gcp_oidc.Endpoints.KeyGeneration.{hex_hash}

pub record GcpResponse : Type 0 where
  pub wrapped_kid : String
  pub wrapped : String
  pub receipt : String

-- `try { body = request.body.json(); } catch (e) {}`, and then `body.wrappingKey`.
unfoldable pub wrapping_key_of : Request → Throws Value
wrapping_key_of request = elim request.body [
  | none ↦ returned undefined
  | some body ↦ if is_nullish body then thrown type_error else returned (member body "wrappingKey")
]

-- `request.caller?.jwt?.payload?.["eat_nonce"]`
unfoldable pub eat_nonce_claim : Request → Value
eat_nonce_claim request = elim request.caller [
  | some (jwt payload) ↦ if is_nullish payload then undefined else member payload "eat_nonce"
  | _ ↦ undefined
]

abbrev pub first_value : List Value → Value
first_value [] = undefined
first_value (v ∷ _) = v

-- `Array.isArray(c) ? c[0] : c`
unfoldable pub expected_nonce : Value → Value
expected_nonce claim = elim (as_array claim) [ none ↦ claim | some values ↦ first_value values ]

-- `isPemPublicKey(wrappingKey)`
pub passes_pem : Value → Handler (Unit {0})
passes_pem value = or_escape (or_throw type_error (to_string value)) >>= λ printed.
    guard (is_pem_public_key (codes printed)) not_pem 400

-- From the lookup of the latest key on.
pub wrap_latest : Ccf → Kv → List ℕ → Handler GcpResponse
wrap_latest ccf kv wrapping_key = do
  kid ← or_fail (latest_item kv).1 no_keys_in_store 400
  item ← or_fail (get_key kid kv) (kid_not_found kid) 404
  wrapped ←
      or_fail_with endpoint_exception
        (or_throw callee_error (ccf.wrap_key (jwk (without_receipt item)) wrapping_key))
  pure (record {
    wrapped_kid = kid;
    wrapped = ccf.base64_encode wrapped;
    receipt = or_empty (receipt ccf kid);
  })

pub unwrap_key_gcp : Ccf → Kv → Request → Handler GcpResponse
unwrap_key_gcp ccf kv request = or_escape (service_request kv request) >>= λ _.
    passes (is_authenticated kv request) >>= λ _. do
      value ← or_escape (wrapping_key_of request)
      guard (truthy value) missing_wrapping_key 400
      passes_pem value
      guard (truthy (eat_nonce_claim request)) missing_eat_nonce 400
      key_text ← or_escape (text_of value)
      let wrapping_key = unescape_newlines (codes key_text)
      nonce ← or_escape (text_of (expected_nonce (eat_nonce_claim request)))
      guard (hex_hash ccf wrapping_key == nonce) eat_nonce_mismatch 400
      wrap_latest ccf kv wrapping_key
