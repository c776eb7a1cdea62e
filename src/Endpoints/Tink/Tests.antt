-- ===== src/Endpoints/Tink/Tests.antt =====
-- Runs of the Tink classes.
use depa_kms_gcp_oidc.Prelude.{◌≡◌, refl, [], ◌∷◌}
use depa_kms_gcp_oidc.Fixtures.{runtime, stored_key}
use depa_kms_gcp_oidc.ServiceResult.{returned}
use depa_kms_gcp_oidc.Endpoints.Tink.{TinkKeySet, tink_key_set, tink_key}

abbrev key_set : TinkKeySet
key_set = record { primary_key_id = 11; key = tink_key 11 "wrapped" ∷ [] }

key_set_run : tink_key_set runtime (stored_key ∷ []) ≡ returned key_set
unfolding tink_key_set
key_set_run = refl
