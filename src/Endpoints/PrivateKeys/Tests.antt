-- ===== src/Endpoints/PrivateKeys/Tests.antt =====
-- Runs of `key` and `unwrapKey`.
use depa_kms_gcp_oidc.Endpoints.KeyWrapper.{wrap_key_jwt}
use depa_kms_gcp_oidc.Policies.KeyRotation.{is_expired}
use depa_kms_gcp_oidc.Repositories.{get_key, receipt, latest_item}
use depa_kms_gcp_oidc.ServiceResult.{result_body, status_code}
use depa_kms_gcp_oidc.Endpoints.ServiceRequest.{service_request, format_of, query_value}
use depa_kms_gcp_oidc.Prelude.{true, ◌≡◌, refl, String}
use depa_kms_gcp_oidc.Js.{member, str, codes, is_undefined, to_string}
use depa_kms_gcp_oidc.Fixtures.{runtime, store, user_request, pem, unwrap_body, report, rotation}
use depa_kms_gcp_oidc.Policies.KeyRotation.Expiry.{HasPolicy}
use depa_kms_gcp_oidc.Endpoints.PrivateKeys.Outcomes.{IsAnswer, unwrap_key-IsAnswer}
use depa_kms_gcp_oidc.Prelude.{lookup}
use depa_kms_gcp_oidc.Endpoints.ServiceRequest.{jwk}
use depa_kms_gcp_oidc.Endpoints.Handler.{pure}
use depa_kms_gcp_oidc.Endpoints.PrivateKeys.{
  UnwrapResponse, unwrap_key, unwrap_stored, attested_body, provider_of, named_fmt, text_of,
  pem_key, request_has_wrapping_key, unwrap_payload, KeyResponse, key, text, key_payload,
  requested_kid,
}
use depa_kms_gcp_oidc.Endpoints.PrivateKeys.Release.{IsBound, IsUnwrapped, unwrap_key_sound}
use depa_kms_gcp_oidc.Endpoints.PrivateKeys.Dummy.{IsDummy, key-IsDummy}
use depa_kms_gcp_oidc.Attestation.{attestation_runs, get_claims}
use depa_kms_gcp_oidc.Authorization.{is_authenticated}
use depa_kms_gcp_oidc.Tooling.{query_params, array_buffer_to_hex, is_pem_public_key}

abbrev answer : UnwrapResponse
answer = record { wrapped = "wrapped"; receipt = "receipt" }

unwrap_key_run : unwrap_key runtime 2000 store user_request ≡ pure answer
unfolding unwrap_key unwrap_stored attested_body provider_of named_fmt text_of pem_key
    request_has_wrapping_key unwrap_payload attestation_runs is_authenticated array_buffer_to_hex
    is_pem_public_key service_request is_undefined to_string format_of result_body get_key
    is_expired wrap_key_jwt receipt
unwrap_key_run = refl

unwrap_key_sound_example :
    (wrapping_key kid : String) × (bound : IsBound runtime store user_request wrapping_key)
    × (member bound.body "wrappedKid" ≡ str kid)
    × IsUnwrapped runtime 2000 store bound.fmt (codes wrapping_key) kid answer
unwrap_key_sound_example = unwrap_key_sound runtime 2000 store user_request answer unwrap_key_run

abbrev key_answer : KeyResponse
key_answer = record { wrapped_kid = "hash_1"; wrapped = text ""; receipt = "receipt" }

key_run : key runtime 2000 store user_request ≡ pure key_answer
unfolding key attestation_runs attested_body service_request is_authenticated requested_kid
    query_value latest_item named_fmt format_of provider_of get_key status_code key_payload
    wrap_key_jwt receipt
key_run = refl

key-IsDummy_example : IsDummy runtime key_answer.wrapped
key-IsDummy_example = key-IsDummy runtime 2000 store user_request key_answer key_run

user_bound : IsBound runtime store user_request pem
unfolding attestation_runs is_authenticated attested_body provider_of service_request format_of
    is_pem_public_key array_buffer_to_hex
user_bound = record {
  body = unwrap_body;
  claims = get_claims report;
  report_data = "abcd";
  fmt = jwk;
  sr = record { success = true; body = user_request.body; query = query_params user_request.query };
  constructed = refl;
  format = refl;
  given = refl;
  authenticated = refl;
  asked = refl;
  pem = refl;
  attested = refl;
  reported = refl;
  bound = refl;
}

has_policy : HasPolicy store.key_rotation rotation
unfolding lookup
has_policy = refl

-- Long after the key has expired.
unwrap_key-IsAnswer_example :
    IsAnswer runtime 200000 store user_bound.fmt
      (codes pem)
      "hash_1"
      (unwrap_key runtime 200000 store user_request)
unfolding user_bound member
unwrap_key-IsAnswer_example =
    unwrap_key-IsAnswer runtime 200000 store rotation user_request pem "hash_1" has_policy
      user_bound refl
