-- ===== src/Endpoints/KeyWrapper/Tests.antt =====
-- Runs of the wrapping of keys.
use depa_kms_gcp_oidc.Prelude.{◌≡◌, refl, none, some, [], ◌∷◌}
use depa_kms_gcp_oidc.Js.{codes, decimal}
use depa_kms_gcp_oidc.ServiceResult.{private_key_missing, returned, thrown}
use depa_kms_gcp_oidc.Fixtures.{runtime, stored_key}
use depa_kms_gcp_oidc.Endpoints.KeyGeneration.{calculate_kid}
use depa_kms_gcp_oidc.Endpoints.KeyWrapper.{
  generate_key, key_material_of, wrap_key_tink, create_wrapped_private_tink_key,
  get_encrypted_key_material,
}

generate_key_run :
    generate_key runtime
    ≡ returned (record {
      kid = "hash";
      keys = record { public_key = codes "pub"; private_key = codes "priv" };
    })
unfolding generate_key calculate_kid
generate_key_run = refl

wrap_key_tink_run :
    wrap_key_tink runtime 5 none stored_key
    ≡ returned (
        record {
          name = "encryptionKeys/11";
          encryption_key_type = "SINGLE_PARTY_HYBRID_KEY";
          public_keyset_handle = "TBD";
          public_key_material = "testtest";
          creation_time = "5";
          expiration_time = "31536000005";
          key_data =
              record {
                public_key_signature = "";
                key_encryption_key_uri = "azu-kms://hash_1";
                key_material = key_material_of "wrapped";
              }
              ∷ [];
        }
        ∷ [])
unfolding wrap_key_tink decimal
wrap_key_tink_run = refl

-- A key with no private part has no keyset.
no_private_run :
    create_wrapped_private_tink_key runtime none (record stored_key { d = none })
    ≡ thrown private_key_missing
unfolding create_wrapped_private_tink_key
no_private_run = refl

material_run :
    get_encrypted_key_material runtime none (record stored_key { receipt = some "r" })
    ≡ returned ("", some "r")
unfolding get_encrypted_key_material
material_run = refl
