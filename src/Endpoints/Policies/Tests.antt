-- ===== src/Endpoints/Policies/Tests.antt =====
-- Runs of the endpoints that show policies.
use depa_kms_gcp_oidc.Prelude.{◌≡◌, ◌↔◌, refl, some, [], ◌∷◌, lookup, insert}
use depa_kms_gcp_oidc.Fixtures.{store, user_request, token_policy, release}
use depa_kms_gcp_oidc.ServiceResult.{returned}
use depa_kms_gcp_oidc.Attestation.{attestation_runs}
use depa_kms_gcp_oidc.Authorization.{read_policy, is_authenticated}
use depa_kms_gcp_oidc.Endpoints.ServiceRequest.{service_request}
use depa_kms_gcp_oidc.Endpoints.Handler.{pure}
use depa_kms_gcp_oidc.Endpoints.Policies.{jwt_validation_policy, all_policies, key_release_policy}
use depa_kms_gcp_oidc.Endpoints.Policies.Issuers.{jwt_validation_policy_sound}

jwt_validation_policy_run :
    jwt_validation_policy store user_request ≡ pure (("issuer", token_policy) ∷ [])
unfolding jwt_validation_policy service_request all_policies attestation_runs is_authenticated
    insert
jwt_validation_policy_run = refl

key_release_policy_run : key_release_policy store user_request ≡ pure release
unfolding key_release_policy service_request attestation_runs is_authenticated
key_release_policy_run = refl

jwt_validation_policy_sound_example :
    (read_policy store "issuer" ≡ returned (some token_policy))
    ↔ (lookup "issuer" (("issuer", token_policy) ∷ []) ≡ some token_policy)
jwt_validation_policy_sound_example =
    jwt_validation_policy_sound store user_request (("issuer", token_policy) ∷ []) "issuer"
      token_policy (tt, tt) jwt_validation_policy_run
