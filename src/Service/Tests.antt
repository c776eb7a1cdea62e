-- ===== src/Service/Tests.antt =====
-- A run of the service.
use depa_kms_gcp_oidc.Prelude.Int.{pos}
use depa_kms_gcp_oidc.Js.{Value, obj, field, end, codes, decimal, is_prefix}
use depa_kms_gcp_oidc.KeyItem.{KeyItem}
use depa_kms_gcp_oidc.Tooling.{query_params, is_pem_public_key, array_buffer_to_hex}
use depa_kms_gcp_oidc.ServiceResult.{returned}
use depa_kms_gcp_oidc.Fixtures.{pem, evidence, report}
use depa_kms_gcp_oidc.Policies.KeyRotation.{get_key_item_expiry_time, is_expired}
use depa_kms_gcp_oidc.Repositories.{store_key, store_key_id}
use depa_kms_gcp_oidc.Authorization.{Request, is_authenticated}
use depa_kms_gcp_oidc.Attestation.{attestation_runs, get_claims}
use depa_kms_gcp_oidc.Endpoints.Handler.{pure}
use depa_kms_gcp_oidc.Endpoints.KeyGeneration.{kept_expiry, calculate_kid}
use depa_kms_gcp_oidc.Endpoints.ServiceRequest.{service_request, format_of, query_value, jwk}
use depa_kms_gcp_oidc.Endpoints.PrivateKeys.{attested_body, provider_of}
use depa_kms_gcp_oidc.Endpoints.PrivateKeys.Release.{IsBound}
use depa_kms_gcp_oidc.Endpoints.PrivateKeys.Answer.{IsServed}
use depa_kms_gcp_oidc.Endpoints.Refresh.{refresh_for, add_key}
use depa_kms_gcp_oidc.Endpoints.Refresh.Names.{IsNamed}
use depa_kms_gcp_oidc.Service.Keys.{KeepsKeys, Reach-KeepsKeys}
use depa_kms_gcp_oidc.Service.Availability.{Reach-unwrap_key}
use depa_kms_gcp_oidc.Prelude.{
  true, false, sym, ◌∙◌, [], ◌∷◌, eqb, ◌≡◌, refl, none, some, lookup, Bool-cases, inl, inr, ◌==◌,
  arith,
}
use depa_kms_gcp_oidc.Fixtures.{runtime, store, stored_key, pair, user_request}
use depa_kms_gcp_oidc.Js.{str, nil, cons}
use depa_kms_gcp_oidc.Repositories.{Kv, get_id, get_key}
use depa_kms_gcp_oidc.Repositories.Numbering.{IsNumbered}
use depa_kms_gcp_oidc.Governance.KeyRelease.Contents.{AreLists}
use depa_kms_gcp_oidc.Governance.KeyRelease.Parts.{part_items}
use depa_kms_gcp_oidc.Endpoints.Refresh.{refresh}
use depa_kms_gcp_oidc.Endpoints.Cose.{Cbor}
use depa_kms_gcp_oidc.Service.{Step, Reach}
use depa_kms_gcp_oidc.Service.Names.{KeepsNames}
use depa_kms_gcp_oidc.Service.Reachable.{IsWellFormed, Reach-IsWellFormed}

abbrev decoder : Cbor
decoder = record { first_part = λ d. some (some d); created_at = λ h. some none }

store-IsNumbered : IsNumbered store
unfolding get_id get_key
store-IsNumbered = record {
  assigned =
      λ i low high. let one : i ≡ 1 = omega arith in ("hash_1", stored_key, rw one refl, refl);
  beyond = λ i above. ground arith;
}

versions-AreLists : AreLists (part_items store.key_release "claims")
unfolding lookup
versions-AreLists key v h = elim (Bool-cases ("x-ms-ver" == key)) [
  | inl same ↦ let h' = rw same at h in (cons (str "2") (cons (str "3") nil), cc h')
  | inr other ↦ let h' = rw other at h in cc
]

no_claims-AreLists : AreLists (part_items store.gcp_key_release "claims")
unfolding lookup
no_claims-AreLists key v h = cc

store-IsWellFormed : IsWellFormed store
store-IsWellFormed = record {
  numbered = store-IsNumbered;
  lists = (versions-AreLists, no_claims-AreLists);
}

abbrev refreshed : Kv
refreshed = (refresh runtime (some pair) 1400 1500 store user_request).1

refreshed-Reach : Reach runtime decoder store refreshed
refreshed-Reach =
    Reach.then_step Reach.here (Step.refreshing (some pair) 1400 1500 store user_request)

Reach-IsWellFormed_example : IsWellFormed refreshed × KeepsNames store refreshed
Reach-IsWellFormed_example = Reach-IsWellFormed runtime decoder store-IsWellFormed refreshed-Reach

store-IsNamed : IsNamed store
unfolding get_id decimal
store-IsNamed i kid numbered = elim (Bool-cases (eqb i 1)) [
  | inl first ↦
      let one : i ≡ 1 = ground arith in
      let named : "hash_1" ≡ kid = cc (rw first at numbered) in ("hash", sym named ∙ rw one refl)
  | inr other ↦ let named = rw other at numbered in cc
]

-- The store after a second `refresh`.
abbrev later : Kv
later = (refresh runtime (some pair) 1600 1700 refreshed user_request).1

later-Reach : Reach runtime decoder refreshed later
later-Reach =
    Reach.then_step Reach.here (Step.refreshing (some pair) 1600 1700 refreshed user_request)

Reach-KeepsKeys_example : IsNamed refreshed × KeepsKeys store refreshed
Reach-KeepsKeys_example =
    Reach-KeepsKeys runtime decoder store-IsWellFormed store-IsNamed refreshed-Reach

abbrev shown_key : KeyItem
shown_key = record {
  kty = "OKP";
  crv = "X25519";
  x = "x";
  d = none;
  kid = "hash_2";
  timestamp = some 1500;
  expiry = some (pos 61400);
  receipt = none;
  id = some 12;
}

refresh_run : (refresh runtime (some pair) 1400 1500 store user_request).0 ≡ pure shown_key
unfolding refresh refresh_for add_key kept_expiry calculate_kid decimal is_authenticated
    attestation_runs get_key_item_expiry_time service_request
refresh_run = refl

abbrev second_body : Value
second_body = obj (
    field "attestation" evidence (
      field "attestationType" (str "gcp")
        (field "wrappingKey" (str pem) (field "wrappedKid" (str "hash_2") end))))

abbrev second_request : Request
second_request = record user_request { body = some second_body }

second_bound : IsBound runtime later second_request pem
unfolding refresh refresh_for get_key_item_expiry_time add_key store_key store_key_id
    is_authenticated attestation_runs kept_expiry attested_body provider_of service_request
    format_of query_value is_pem_public_key array_buffer_to_hex is_prefix
second_bound = record {
  body = second_body;
  claims = get_claims report;
  report_data = "abcd";
  fmt = jwk;
  sr = record {
    success = true;
    body = second_request.body;
    query = query_params second_request.query;
  };
  constructed = refl;
  format = refl;
  given = refl;
  authenticated = refl;
  asked = refl;
  pem = refl;
  attested = refl;
  reported = refl;
  bound = refl;
}

not_expired : is_expired later.key_rotation 2000 shown_key ≡ returned (false, false)
unfolding refresh refresh_for get_key_item_expiry_time add_key store_key store_key_id
    is_authenticated attestation_runs kept_expiry is_expired service_request
not_expired = refl

refreshed_stored :
    get_key "hash_2" (refresh runtime (some pair) 1400 1500 store user_request).1
    ≡ some (record shown_key { d = some pair.d })
unfolding refresh refresh_for add_key get_key kept_expiry calculate_kid decimal is_authenticated
    attestation_runs get_key_item_expiry_time service_request store_key store_key_id
refreshed_stored = refl

Reach-unwrap_key_example : IsServed runtime 2000 later second_request (codes pem) shown_key
unfolding second_bound
Reach-unwrap_key_example =
    Reach-unwrap_key runtime decoder (some pair) 1400 1500 2000 store later user_request
      second_request shown_key (record shown_key { d = some pair.d }) pem (1 ∷ []) false
      store-IsWellFormed store-IsNamed refresh_run later-Reach second_bound refl refl not_expired
      refreshed_stored refl
