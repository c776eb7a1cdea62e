-- ===== src/Endpoints/PrivateKeys.antt =====
-- src/endpoints/keyEndpoint.ts: the handlers that give out private keys. `now` is the value of
-- `Date.now()`.
pub mod Release
pub mod Answer
pub mod Outcomes
pub mod Pending
pub mod Dummy
mod Tests
use depa_kms_gcp_oidc.Prelude.{
  ℕ, String, Bool, not, ◌&&◌, Option, none, some, List, [], ◌∷◌, ◌==◌, eqb, if◌then◌else◌,
}
use depa_kms_gcp_oidc.Js.{
  Value, undefined, str, arr, obj, end, Values, nil, cons, member, truthy, is_undefined, is_nullish,
  to_string, codes, is_prefix,
}
use depa_kms_gcp_oidc.KeyItem.{KeyItem, without_receipt}
use depa_kms_gcp_oidc.Tooling.{array_buffer_to_hex, is_pem_public_key, unescape_newlines}
use depa_kms_gcp_oidc.Ccf.{Ccf}
use depa_kms_gcp_oidc.Ccf
use depa_kms_gcp_oidc.ServiceResult.{
  ErrorMessage, type_error, callee_error, bad_body, no_keys_in_store, missing_wrapped_kid,
  missing_wrapping_key, not_pem, wrong_fmt, kid_not_found, kid_expired, wrapping_key_hash_mismatch,
  missing_eat_nonce, eat_nonce_mismatch, endpoint_exception, ServiceResult, accepted, Throws,
  returned, thrown, or_throw, status_code, result_body,
}
use depa_kms_gcp_oidc.ServiceResult
use depa_kms_gcp_oidc.Policies.KeyRotation.{is_expired}
use depa_kms_gcp_oidc.Repositories.{Kv, latest_item, get_key, receipt}
use depa_kms_gcp_oidc.Authorization.{Caller, Request, is_authenticated}
use depa_kms_gcp_oidc.Authorization
use depa_kms_gcp_oidc.Attestation.{validate_attestation}
use depa_kms_gcp_oidc.Endpoints.Handler.{
  ◌>>>◌, Handler, ◌>>=◌, ◌>>◌, pure, guard, or_fail, or_escape, or_fail_with, passes, or_accepted,
}
use depa_kms_gcp_oidc.Endpoints.KeyGeneration.{hex_hash}
use depa_kms_gcp_oidc.Endpoints.KeyWrapper.{
  EncryptionKey, wrap_key_tink, wrap_key_jwt, create_wrapped_private_tink_key,
}
use depa_kms_gcp_oidc.Endpoints.ServiceRequest.{
  ServiceRequest, service_request, query_value, Format, jwk, tink, format_of,
}

pub data Wrapped : Type 0 where
  text : String → Wrapped
  tink_keys : List EncryptionKey → Wrapped

pub record KeyResponse : Type 0 where
  pub wrapped_kid : String
  pub wrapped : Wrapped
  pub receipt : String

pub record UnwrapResponse : Type 0 where
  pub wrapped : String
  pub receipt : String

-- The body and its attestation, if both are there.
unfoldable pub attested_body : ServiceRequest → Option (Value × Value)
attested_body sr = elim sr.body [
  | none ↦ none
  | some body ↦
      if truthy body && truthy (member body "attestation")
      then some (body, member body "attestation")
      else none
]

-- `body["attestationType"] || "azure"`
unfoldable pub provider_of : Value → Value
provider_of body =
    if truthy (member body "attestationType") then member body "attestationType" else str "azure"

abbrev pub or_empty : Option String → String
or_empty none = ""
or_empty (some s) = s

-- The `kid` of the query, else that of the latest key.
requested_kid : ServiceRequest → Kv → Option String
requested_kid sr kv = elim (query_value sr "kid") [
  | some kid ↦ some kid
  | none ↦ (latest_item kv).1
]

unfoldable pub named_fmt : ServiceRequest → Handler Format
named_fmt sr = or_fail (format_of sr) (wrong_fmt (or_empty (query_value sr "fmt"))) 400

-- `key` wraps under no key.
key_payload : Ccf → ℕ → Format → KeyItem → Throws Wrapped
key_payload ccf now tink item = wrap_key_tink ccf now none item >>> tink_keys
key_payload ccf now jwk item = wrap_key_jwt ccf none item >>> text

-- `key`, once the request is built.
pub key_for : Ccf → ℕ → Kv → Request → ServiceRequest → Handler KeyResponse
key_for ccf now kv request sr = do
  given ← or_fail (attested_body sr) bad_body 400
  passes (is_authenticated kv request) >>= λ _. do
    kid ← or_fail (requested_kid sr kv) no_keys_in_store 400
    fmt ← named_fmt sr
    attested ← passes (validate_attestation ccf kv given.1 (provider_of given.0))
    item ← or_fail (get_key kid kv) (kid_not_found kid) 404
    let shown = or_empty (receipt ccf kid)
    if eqb (status_code attested) 202 then returned accepted else do
      wrapped ← or_fail_with endpoint_exception (key_payload ccf now fmt item)
      pure (record { wrapped_kid = kid; wrapped = wrapped; receipt = shown })

pub key : Ccf → ℕ → Kv → Request → Handler KeyResponse
unfolding key_for
key ccf now kv request = or_escape (service_request kv request) >>= key_for ccf now kv request

-- The value as a text; a method of texts throws on anything else.
unfoldable pub text_of : Value → Throws String
text_of (str s) = returned s
text_of _ = thrown type_error

-- A wrapping key that passes `isPemPublicKey`, as the buffer of its text.
pem_key : Value → Handler (List ℕ)
pem_key value = do
  printed ← or_escape (or_throw type_error (to_string value))
  guard (is_pem_public_key (codes printed)) not_pem 400
  key_text ← or_escape (text_of value)
  pure (codes key_text)

-- `requestHasWrappingKey`
request_has_wrapping_key : Value → Handler (List ℕ)
request_has_wrapping_key value =
    if truthy value then pem_key value else returned (ServiceResult.failed missing_wrapping_key 400)

pub unwrap_payload : Ccf → Format → List ℕ → KeyItem → Throws String
unwrap_payload ccf tink wrapping_key item =
    create_wrapped_private_tink_key ccf (some wrapping_key) item
unwrap_payload ccf jwk wrapping_key item = wrap_key_jwt ccf (some wrapping_key) item

-- `keyItem.receipt = receipt`
abbrev pub with_receipt : String → KeyItem → KeyItem
with_receipt shown item = record item { receipt = some shown }

-- From the lookup of the key on.
pub unwrap_stored : Ccf → ℕ → Kv → Format → List ℕ → Value → Handler UnwrapResponse
unwrap_stored ccf now kv fmt wrapping_key wrapped_kid = do
  kid ← or_escape (text_of wrapped_kid)
  item ← or_fail (get_key kid kv) (kid_not_found kid) 404
  verdict ← or_escape (is_expired kv.key_rotation now item)
  guard (not verdict.0) (kid_expired kid) 410
  shown ← or_accepted (some (or_empty (receipt ccf kid)))
  wrapped ←
      or_fail_with endpoint_exception
        (unwrap_payload ccf fmt wrapping_key (with_receipt shown item))
  pure (record { wrapped = wrapped; receipt = shown })

pub unwrap_key : Ccf → ℕ → Kv → Request → Handler UnwrapResponse
unwrap_key ccf now kv request = do
  sr ← or_escape (service_request kv request)
  given ← or_fail (attested_body sr) bad_body 400
  passes (is_authenticated kv request) >>= λ _. do
    guard (not (is_undefined (member given.0 "wrappedKid"))) missing_wrapped_kid 400
    wrapping_key ← request_has_wrapping_key (member given.0 "wrappingKey")
    fmt ← named_fmt sr
    attested ← passes (validate_attestation ccf kv given.1 (provider_of given.0))
    claims ← or_escape (or_throw type_error (result_body attested))
    report_data ← or_escape (text_of (member claims "x-ms-sevsnpvm-reportdata"))
    guard (is_prefix (codes (hex_hash ccf wrapping_key)) (codes report_data))
        wrapping_key_hash_mismatch 400
    unwrap_stored ccf now kv fmt wrapping_key (member given.0 "wrappedKid")
