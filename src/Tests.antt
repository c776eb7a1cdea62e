-- ===== src/Tests.antt =====
-- Runs of the policies, the authorization, the attestation and the tools.
use depa_kms_gcp_oidc.Prelude.{
  ℕ, ◌≡◌, ◌↔◌, ◌<◌, refl, String, Bool, true, false, Option, some, [], ◌∷◌, All, lookup, arith,
}
use depa_kms_gcp_oidc.Prelude.Int.{pos, ◌+ℤ◌, times_1000, ◌<ℤ◌}
use depa_kms_gcp_oidc.Js.{
  Value, str, num, arr, obj, end, field, codes, of_ℕ, member, entries, is_nullish, truthy,
  is_string, nil, cons, as_array, to_string, strict_eq,
}
use depa_kms_gcp_oidc.ServiceResult.{succeeded, returned}
use depa_kms_gcp_oidc.Endpoints.ServiceRequest.Headers.{Headers}
use depa_kms_gcp_oidc.Fixtures.{
  runtime, store, stored_key, rotation, release, at_least, evidence, report, user_request, token,
}
use depa_kms_gcp_oidc.Policies.KeyRelease.{
  KeyReleasePolicy, validate_key_release_policy, get_key_release_policy_from_map, validate_claims,
  validate_operators,
}
use depa_kms_gcp_oidc.Policies.KeyRelease.Verdict.{
  IsReleased, HasLists, validate_key_release_policy_sound, validate_key_release_policy_complete,
  validate_key_release_policy-gt_overrides,
}
use depa_kms_gcp_oidc.Policies.KeyRotation.{
  is_expired, get_latest_exposable_key, delay_of, get_key_rotation_policy_from_map,
}
use depa_kms_gcp_oidc.Policies.KeyRotation.Expiry.{is_expired_iff, is_expired-grace_ignored}
use depa_kms_gcp_oidc.Policies.KeyRotation.Exposure.{IsPick, get_latest_exposable_key-IsPick}
use depa_kms_gcp_oidc.Repositories.{get_id, get_key, calc_version}
use depa_kms_gcp_oidc.Repositories.Receipts.{calc_version-eighth_byte}
use depa_kms_gcp_oidc.Authorization.{
  Request, user_cert, user_cose_sign1, validate_jwt, is_authenticated,
}
use depa_kms_gcp_oidc.Authorization.Jwt.{IsAcceptedToken, validate_jwt_iff}
use depa_kms_gcp_oidc.Authorization.Callers.{
  IsAuthentic, is_authenticated_iff, is_authenticated-cose_any_user,
}
use depa_kms_gcp_oidc.Attestation.{get_claims, validate_attestation, attestation_runs}
use depa_kms_gcp_oidc.Attestation.Validation.{
  IsAttested, HasParts, validate_attestation-azure_sound, validate_attestation-gcp_iff,
}
use depa_kms_gcp_oidc.Tooling.{array_buffer_to_hex}
use depa_kms_gcp_oidc.Tooling.Hex.{from_hex, from_hex-array_buffer_to_hex}

abbrev claims : Value
claims = obj (field "x-ms-ver" (str "3") (field "x-ms-sevsnpvm-guestsvn" (num (of_ℕ 7)) end))

release_run : validate_key_release_policy release claims ≡ returned (succeeded claims)
unfolding attestation_runs validate_claims validate_operators
release_run = refl

validate_key_release_policy_sound_example : (claims ≡ claims) × IsReleased release claims
validate_key_release_policy_sound_example =
    validate_key_release_policy_sound release claims claims release_run

release_lists : HasLists release
unfolding entries as_array to_string
release_lists = (
  ("x-ms-ver", arr (cons (str "2") (cons (str "3") nil))) ∷ [],
  refl,
  ((str "2" ∷ str "3" ∷ [], refl, (("2", refl), (("3", refl), tt))), tt),
)

validate_key_release_policy_complete_example :
    validate_key_release_policy release claims ≡ returned (succeeded claims)
validate_key_release_policy_complete_example =
    validate_key_release_policy_complete release claims release_lists
      (validate_key_release_policy_sound release claims claims release_run).1

abbrev above : KeyReleasePolicy
above = record release { gt = at_least }

above_given : is_nullish above.gt ≡ false
unfolding is_nullish
above_given = refl

validate_key_release_policy-gt_overrides_example :
    validate_key_release_policy (record above { gte = obj end }) claims
    ≡ validate_key_release_policy above claims
validate_key_release_policy-gt_overrides_example =
    validate_key_release_policy-gt_overrides above claims (obj end) above_given

has_policy : lookup "key_rotation_policy" store.key_rotation ≡ some (some rotation)
unfolding lookup
has_policy = refl

is_expired-iff_example :
    (verdict : Bool × Bool) × (is_expired store.key_rotation 70000 stored_key ≡ returned verdict)
    × ((verdict.0 ≡ true)
        ↔ (pos 1000 +ℤ times_1000 rotation.rotation_interval_seconds <ℤ pos 70000))
is_expired-iff_example =
    is_expired_iff store.key_rotation rotation stored_key 70000 1000 has_policy refl

is_expired-grace_ignored_example :
    (b : Bool) × (is_expired store.key_rotation 70000 stored_key ≡ returned (b, b))
is_expired-grace_ignored_example =
    is_expired-grace_ignored store.key_rotation rotation stored_key 70000 has_policy (omega arith)

rotation_read : get_key_rotation_policy_from_map store.key_rotation ≡ returned (some rotation)
unfolding get_key_rotation_policy_from_map
rotation_read = refl

get_latest_exposable_key-IsPick_example :
    (r : Option (ℕ × String)) × (get_latest_exposable_key store.key_rotation 70000 1
        (λ id. get_id id store.hpke_key_ids)
        (λ kid. get_key kid store)
      ≡ returned r)
    × IsPick
        (delay_of (some rotation))
        70000
        (λ id. get_id id store.hpke_key_ids)
        (λ kid. get_key kid store)
        1
        r
get_latest_exposable_key-IsPick_example =
    get_latest_exposable_key-IsPick store.key_rotation (some rotation) 70000 1
      (λ id. get_id id store.hpke_key_ids) (λ kid. get_key kid store) rotation_read

bytes_below : All (λ b. b < 256) (1 ∷ 2 ∷ 3 ∷ 4 ∷ 5 ∷ 6 ∷ 7 ∷ 88 ∷ [])
bytes_below = (
  omega arith,
  (
    omega arith,
    (omega arith, (omega arith, (omega arith, (omega arith, (omega arith, (omega arith, tt)))))),
  ),
)

calc_version-eighth_byte_example : calc_version (1 ∷ 2 ∷ 3 ∷ 4 ∷ 5 ∷ 6 ∷ 7 ∷ 88 ∷ 99 ∷ []) ≡ some 88
calc_version-eighth_byte_example = calc_version-eighth_byte 1 2 3 4 5 6 7 88 (99 ∷ []) bytes_below

validate_jwt-iff_example :
    (validate_jwt store token ≡ returned (succeeded (str "id")))
    ↔ IsAcceptedToken store token (str "id")
validate_jwt-iff_example = validate_jwt_iff store token (str "id")

is_authenticated-iff_example :
    ((v : Value) × (is_authenticated store user_request ≡ succeeded v))
    ↔ IsAuthentic store user_request (user_cert "user")
is_authenticated-iff_example = is_authenticated_iff store user_request (user_cert "user") refl

abbrev signed_request : Request
signed_request = record user_request { caller = some (user_cose_sign1 "nobody" 3); body_length = 3 }

is_authenticated-cose_any_user_example :
    is_authenticated store signed_request
    ≡ is_authenticated (record store { users_certs = [] }) signed_request
is_authenticated-cose_any_user_example =
    is_authenticated-cose_any_user store (record store { users_certs = [] }) signed_request "nobody"
      3 refl

azure : strict_eq (str "azure") (str "gcp") ≡ false
unfolding strict_eq
azure = refl

azure_run :
    validate_attestation runtime store evidence (str "azure") ≡ succeeded (get_claims report)
unfolding attestation_runs validate_claims validate_operators
azure_run = refl

validate_attestation-azure_sound_example :
    IsAttested runtime evidence (get_claims report)
    × ((policy : KeyReleasePolicy) × (get_key_release_policy_from_map store.key_release
          ≡ returned policy)
        × IsReleased policy (get_claims report))
validate_attestation-azure_sound_example =
    validate_attestation-azure_sound runtime store evidence (str "azure") (get_claims report) azure
      azure_run

evidence_parts : HasParts evidence
unfolding truthy member is_string
evidence_parts = record {
  present = refl;
  evidence = refl;
  endorsements = refl;
  uvm_endorsements = refl;
  endorsed_tcb = refl;
}

validate_attestation-gcp_iff_example :
    (validate_attestation runtime store evidence (str "gcp") ≡ succeeded (get_claims report))
    ↔ IsAttested runtime evidence (get_claims report)
validate_attestation-gcp_iff_example =
    validate_attestation-gcp_iff runtime store evidence (get_claims report) evidence_parts

from_hex-array_buffer_to_hex_example :
    from_hex (codes (array_buffer_to_hex (7 ∷ 255 ∷ []))) ≡ 7 ∷ 255 ∷ []
from_hex-array_buffer_to_hex_example =
    from_hex-array_buffer_to_hex (7 ∷ 255 ∷ []) (omega arith, (omega arith, tt))

abbrev sent_headers : Headers
sent_headers = ("accept", "*/*") ∷ ("authorization", "Bearer x") ∷ []
