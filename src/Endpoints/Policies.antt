-- ===== src/Endpoints/Policies.antt =====
-- src/endpoints/: kms.ts, settingsPolicyEndpoint.ts, keyReleasePolicyEndpoint.ts and
-- jwtValidationPolicyEndpoint.ts, which show the state and the policies of the service.
pub mod Issuers
mod Tests
use depa_kms_gcp_oidc.Prelude.{String, Option, none, some, List, [], ◌∷◌, insert}
use depa_kms_gcp_oidc.Js.{Value}
use depa_kms_gcp_oidc.ServiceResult.{
  ErrorMessage, ServiceResult, succeeded, failed, unless_failed, Throws, returned, ◌>>=◌, catching,
}
use depa_kms_gcp_oidc.Policies.KeyRelease.{KeyReleasePolicy, get_key_release_policy_from_map}
use depa_kms_gcp_oidc.Repositories.{Kv}
use depa_kms_gcp_oidc.Authorization.{Caller, Request, is_authenticated}
use depa_kms_gcp_oidc.Endpoints.ServiceRequest.{load_settings_from_map, service_request}
use depa_kms_gcp_oidc.Endpoints.Handler.{Handler, ◌>>>◌}

-- `auth` answers the caller, undefined where there is none.
pub auth : Kv → Request → Handler (Option Caller)
auth kv request = service_request kv request >>> λ _.
    unless_failed (is_authenticated kv request) (succeeded request.caller)

pub heartbeat : Kv → Request → Handler String
heartbeat kv request = service_request kv request >>> λ _. succeeded "Service is running"

-- `error.message`
abbrev same_message : ErrorMessage → ErrorMessage
same_message e = e

pub settings_policy : Kv → Request → Handler Value
settings_policy kv request = service_request kv request >>> λ _.
    unless_failed (is_authenticated kv request) (
      catching same_message 500
        (load_settings_from_map kv >>= λ settings. returned (succeeded settings)))

pub key_release_policy : Kv → Request → Handler KeyReleasePolicy
key_release_policy kv request = service_request kv request >>> λ _.
    unless_failed (is_authenticated kv request) (
      catching same_message 500
        (get_key_release_policy_from_map kv.key_release >>= λ policy. returned (succeeded policy)))

-- The policies of the issuers; one that is no JSON is left out.
pub all_policies : List (String × Value) → List (String × Option Value) → List (String × Value)
all_policies shown [] = shown
all_policies shown ((issuer, none) ∷ table) = all_policies shown table
all_policies shown ((issuer, some policy) ∷ table) = all_policies (insert issuer policy shown) table

pub jwt_validation_policy : Kv → Request → Handler (List (String × Value))
jwt_validation_policy kv request = service_request kv request >>> λ _.
    unless_failed (is_authenticated kv request) (succeeded (all_policies [] kv.jwt_validation))
