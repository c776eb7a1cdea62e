-- ===== src/Endpoints/GcpKeys/Tests.antt =====
-- A run of `unwrapKeyGcp`.
use depa_kms_gcp_oidc.Repositories.{latest_item, get_key, receipt}
use depa_kms_gcp_oidc.Endpoints.PrivateKeys.{text_of}
use depa_kms_gcp_oidc.Authorization.{is_authenticated}
use depa_kms_gcp_oidc.Prelude.{◌≡◌, refl, String}
use depa_kms_gcp_oidc.Js.{codes, to_string}
use depa_kms_gcp_oidc.Tooling.{unescape_newlines, is_pem_public_key, array_buffer_to_hex}
use depa_kms_gcp_oidc.Fixtures.{runtime, store, token_request}
use depa_kms_gcp_oidc.Endpoints.Handler.{pure}
use depa_kms_gcp_oidc.Endpoints.GcpKeys.{
  GcpResponse, unwrap_key_gcp, wrap_latest, wrapping_key_of, passes_pem, eat_nonce_claim,
  expected_nonce,
}
use depa_kms_gcp_oidc.Endpoints.GcpKeys.Binding.{IsBound, IsLatest, unwrap_key_gcp_sound}
use depa_kms_gcp_oidc.Endpoints.ServiceRequest.{service_request}
use depa_kms_gcp_oidc.Attestation.{attestation_runs}

abbrev answer : GcpResponse
answer = record { wrapped_kid = "hash_1"; wrapped = "wrapped"; receipt = "receipt" }

unwrap_key_gcp_run : unwrap_key_gcp runtime store token_request ≡ pure answer
unfolding unwrap_key_gcp wrap_latest attestation_runs is_authenticated wrapping_key_of passes_pem
    to_string is_pem_public_key eat_nonce_claim text_of expected_nonce array_buffer_to_hex
    latest_item get_key receipt service_request
unwrap_key_gcp_run = refl

unwrap_key_gcp_sound_example :
    (wrapping_key : String) × IsBound runtime store token_request wrapping_key
    × IsLatest runtime store (unescape_newlines (codes wrapping_key)) answer
unwrap_key_gcp_sound_example =
    unwrap_key_gcp_sound runtime store token_request answer unwrap_key_gcp_run
