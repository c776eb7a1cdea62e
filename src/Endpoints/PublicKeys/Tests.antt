-- ===== src/Endpoints/PublicKeys/Tests.antt =====
-- Runs of the public endpoints.
use depa_kms_gcp_oidc.Endpoints.Tink.{tink_public_keys}
use depa_kms_gcp_oidc.Endpoints.PrivateKeys.{named_fmt}
use depa_kms_gcp_oidc.Repositories.{get_id, get_key, receipt}
use depa_kms_gcp_oidc.Policies.KeyRotation.{get_latest_exposable_key}
use depa_kms_gcp_oidc.Endpoints.ServiceRequest.{query_value, service_request, format_of}
use depa_kms_gcp_oidc.Authorization.{is_authenticated}
use depa_kms_gcp_oidc.KeyItem.{KeyItem, without_private}
use depa_kms_gcp_oidc.Fixtures.{rotation}
use depa_kms_gcp_oidc.ServiceResult.{returned, success}
use depa_kms_gcp_oidc.Policies.KeyRotation.{get_key_rotation_policy_from_map}
use depa_kms_gcp_oidc.Endpoints.ServiceRequest.{Format, ServiceRequest}
use depa_kms_gcp_oidc.Endpoints.PrivateKeys.{with_receipt}
use depa_kms_gcp_oidc.Endpoints.PublicKeys.{PublicKey}
use depa_kms_gcp_oidc.Endpoints.PublicKeys.Choice.{
  IsExposed, IsAsked, listpubkeys_sound, pubkey_sound,
}
use depa_kms_gcp_oidc.Prelude.{String, true, lookup, ◌≡◌, refl, some, none, [], ◌∷◌}
use depa_kms_gcp_oidc.Fixtures.{runtime, store, stored_key, user_request}
use depa_kms_gcp_oidc.Endpoints.Handler.{pure}
use depa_kms_gcp_oidc.Attestation.{attestation_runs}
use depa_kms_gcp_oidc.Endpoints.PublicKeys.{
  listpubkeys, pubkey, web_key, show_key, list_keys, asked_kid, exposed_kid, kid_or_latest,
  formatted,
}
use depa_kms_gcp_oidc.Endpoints.PublicKeys.Secrecy.{
  without_privates, listpubkeys-without_privates, pubkey-without_privates,
}

-- A key that is old enough to be shown.
pubkey_run :
    pubkey runtime 70000 store user_request
    ≡ pure (web_key (record stored_key { d = none; receipt = some "receipt" }))
unfolding pubkey show_key attestation_runs is_authenticated asked_kid query_value service_request
    exposed_kid get_latest_exposable_key kid_or_latest get_id get_key named_fmt format_of receipt
    formatted
pubkey_run = refl

listpubkeys_run :
    listpubkeys runtime 70000 store user_request ≡ pure (record { key = "wrapped"; id = "11" } ∷ [])
unfolding listpubkeys service_request list_keys attestation_runs is_authenticated exposed_kid
    get_latest_exposable_key kid_or_latest get_id get_key tink_public_keys
listpubkeys_run = refl

listpubkeys-without_privates_example :
    listpubkeys runtime 70000 (without_privates store) user_request
    ≡ listpubkeys runtime 70000 store user_request
listpubkeys-without_privates_example = listpubkeys-without_privates runtime 70000 store user_request

pubkey-without_privates_example :
    pubkey runtime 70000 (without_privates store) user_request
    ≡ pubkey runtime 70000 store user_request
pubkey-without_privates_example = pubkey-without_privates runtime 70000 store user_request

rotation_run : get_key_rotation_policy_from_map store.key_rotation ≡ returned (some rotation)
unfolding get_key_rotation_policy_from_map lookup
rotation_run = refl

listpubkeys_sound_example :
    (success (is_authenticated store user_request) ≡ true)
    × (kid : String) × (item : KeyItem) × IsExposed (some rotation) 70000 store kid
    × (get_key kid store ≡ some item)
    × (tink_public_keys runtime (without_private item ∷ [])
        ≡ returned (record { key = "wrapped"; id = "11" } ∷ []))
listpubkeys_sound_example =
    listpubkeys_sound (some rotation) 70000 store rotation_run runtime user_request _
      listpubkeys_run

abbrev shown_answer : PublicKey
shown_answer = web_key (record stored_key { d = none; receipt = some "receipt" })

pubkey_sound_example :
    (success (is_authenticated store user_request) ≡ true)
    × (sr : ServiceRequest) × (service_request store user_request ≡ returned sr)
    × (kid shown : String) × (fmt : Format) × (item : KeyItem) × IsAsked
        (some rotation)
        70000
        store
        sr
        kid
    × (format_of sr ≡ some fmt)
    × (get_key kid store ≡ some item)
    × (receipt runtime kid ≡ some shown)
    × (formatted runtime fmt shown (without_private (with_receipt shown item))
        ≡ returned shown_answer)
pubkey_sound_example =
    pubkey_sound (some rotation) 70000 store rotation_run runtime user_request shown_answer
      pubkey_run
