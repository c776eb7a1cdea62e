-- ===== src/Endpoints/Refresh/Tests.antt =====
-- A run of `refresh`.
use depa_kms_gcp_oidc.Policies.KeyRotation.{get_key_item_expiry_time}
use depa_kms_gcp_oidc.Prelude.{◌≡◌, refl, true, ◌⊎◌, [], ◌∷◌, some, none, arith}
use depa_kms_gcp_oidc.Js.{decimal, truthy, is_nullish, member}
use depa_kms_gcp_oidc.Prelude.Int.{pos}
use depa_kms_gcp_oidc.KeyItem.{KeyItem}
use depa_kms_gcp_oidc.Tooling.{query_params, array_buffer_to_hex, is_pem_public_key}
use depa_kms_gcp_oidc.Repositories.{Kv}
use depa_kms_gcp_oidc.Endpoints.GcpKeys.{
  wrapping_key_of, expected_nonce, eat_nonce_claim, unwrap_key_gcp,
}
use depa_kms_gcp_oidc.Endpoints.GcpKeys.Binding.{IsBound}
use depa_kms_gcp_oidc.Endpoints.GcpKeys.Answer.{answer as gcp_answer, refresh-unwrap_key_gcp}
use depa_kms_gcp_oidc.Fixtures.{pem, token_request, runtime, store, stored_key, user_request, pair}
use depa_kms_gcp_oidc.ServiceResult.{callee_error, endpoint_exception, failed, returned}
use depa_kms_gcp_oidc.Repositories.{store_key, store_key_id, get_id, get_key}
use depa_kms_gcp_oidc.Repositories.Numbering.{IsNumbered}
use depa_kms_gcp_oidc.Authorization.{is_authenticated}
use depa_kms_gcp_oidc.Endpoints.Handler.{pure}
use depa_kms_gcp_oidc.Endpoints.Refresh.{refresh, refresh_for, add_key}
use depa_kms_gcp_oidc.Endpoints.KeyGeneration.{kept_expiry, calculate_kid}
use depa_kms_gcp_oidc.Endpoints.Refresh.Outcomes.{IsRefused, IsRefreshed, refresh-outcome}
use depa_kms_gcp_oidc.Endpoints.ServiceRequest.{service_request}
use depa_kms_gcp_oidc.Attestation.{attestation_runs}

abbrev answer : KeyItem
answer = record {
  kty = "OKP";
  crv = "X25519";
  x = "x";
  d = none;
  kid = "hash_2";
  timestamp = some 1500;
  expiry = some (pos 61400);
  receipt = none;
  id = some 12;
}

refresh_run : (refresh runtime (some pair) 1400 1500 store user_request).0 ≡ pure answer
unfolding refresh refresh_for add_key kept_expiry calculate_kid decimal is_authenticated
    attestation_runs get_key_item_expiry_time service_request
refresh_run = refl

store-IsNumbered : IsNumbered store
unfolding get_id get_key
store-IsNumbered = record {
  assigned =
      λ i low high. let one : i ≡ 1 = omega arith in ("hash_1", stored_key, rw one refl, refl);
  beyond = λ i above. ground arith;
}

refresh-outcome_example :
    IsRefused
      (service_request store user_request)
      (is_authenticated store user_request)
      (get_key_item_expiry_time store.key_rotation 1400)
      (some pair)
      store
      (refresh runtime (some pair) 1400 1500 store user_request)
    ⊎ IsRefreshed
        (is_authenticated store user_request)
        store
        (refresh runtime (some pair) 1400 1500 store user_request)
refresh-outcome_example =
    refresh-outcome runtime (some pair) 1400 1500 store user_request store-IsNumbered

-- Without a pair nothing is stored.
no_pair_run :
    refresh runtime none 1400 1500 store user_request
    ≡ (returned (failed (endpoint_exception callee_error) 500), store)
unfolding refresh refresh_for add_key is_authenticated attestation_runs get_key_item_expiry_time
    service_request
no_pair_run = refl

-- The store with the new key, and a token whose nonce is the hash of the wrapping key.
abbrev refreshed : Kv
refreshed = (refresh runtime (some pair) 1400 1500 store user_request).1

refreshed-IsBound : IsBound runtime refreshed token_request pem
unfolding is_authenticated refresh refresh_for get_key_item_expiry_time add_key store_key
    store_key_id wrapping_key_of eat_nonce_claim expected_nonce is_pem_public_key
    array_buffer_to_hex attestation_runs kept_expiry service_request
refreshed-IsBound = record {
  sr = record {
    success = true;
    body = token_request.body;
    query = query_params token_request.query;
  };
  constructed = refl;
  authenticated = refl;
  asked = refl;
  pem = refl;
  bound = refl;
}

nonce_there : truthy (eat_nonce_claim token_request) ≡ true
unfolding truthy eat_nonce_claim is_nullish member
nonce_there = refl

refreshed_stored : get_key "hash_2" refreshed ≡ some (record answer { d = some pair.d })
unfolding refresh refresh_for add_key get_key kept_expiry calculate_kid decimal is_authenticated
    attestation_runs get_key_item_expiry_time service_request store_key store_key_id
refreshed_stored = refl

refresh-unwrap_key_gcp_example :
    unwrap_key_gcp runtime refreshed token_request ≡ pure (gcp_answer runtime "hash_2" (1 ∷ []))
refresh-unwrap_key_gcp_example =
    refresh-unwrap_key_gcp runtime (some pair) 1400 1500 store user_request token_request answer
      (record answer { d = some pair.d }) pem (1 ∷ []) store-IsNumbered refresh_run
      refreshed-IsBound nonce_there refreshed_stored refl
