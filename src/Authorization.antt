-- ===== src/Authorization.antt =====
-- src/authorization/: which callers a request is accepted from. `Caller` has a constructor for each
-- authentication policy of CCF with a validator, and one for the rest.
pub mod Jwt
pub mod Callers
use depa_kms_gcp_oidc.Prelude.{
  ℕ, String, Bool, true, false, not, ◌&&◌, Option, none, some, List, [], ◌∷◌, ◌==◌, any, lookup,
  ltb, eqb, if◌then◌else◌,
}
use depa_kms_gcp_oidc.Js.{
  Value, undefined, str, member, truthy, strict_eq, as_array, includes, entries,
}
use depa_kms_gcp_oidc.ServiceResult.{
  ErrorMessage, type_error, jwt_no_issuer, issuer_not_in_policy, jwt_claim_invalid,
  invalid_caller_identity, member_information_undefined, no_cose_content, authentication_error,
  ServiceResult, succeeded, accepted, failed, Throws, returned, thrown, ◌>>=◌, or_throw, catching,
}
use depa_kms_gcp_oidc.Repositories.{Kv}

pub data Caller : Type 0 where
  jwt : (payload : Value) → Caller
  user_cert : (id : String) → Caller
  member_cert : (id : String) → Caller
  -- with the length of the signed content
  user_cose_sign1 : (id : String) (content_length : ℕ) → Caller
  other : (policy : String) → Caller

pub record Request : Type 0 where
  pub caller : Option Caller
  -- `request.body.json()`, none where it throws
  pub body : Option Value
  pub body_length : ℕ
  pub query : String

-- `policy[key].includes(jwtProp)` for an array, else `jwtProp === policy[key]`.
complies : (wanted found : Value) → Bool
unfolding as_array includes strict_eq
complies wanted found = elim (as_array wanted) [
  | some values ↦ includes values found
  | none ↦ strict_eq found wanted
]

jwt_loop : List (String × Value) → Value → ServiceResult Value
unfolding complies member
jwt_loop [] payload = succeeded (member payload "oid")
jwt_loop ((key, wanted) ∷ rest) payload =
    let later = jwt_loop rest payload in
    if complies wanted (member payload key) then later else failed (jwt_claim_invalid key) 401

-- `JwtValidationPolicyMap.read`; a text that is no JSON is thrown.
abbrev pub read_entry : Option (Option Value) → Throws (Option Value)
read_entry none = returned none
read_entry (some none) = thrown type_error
read_entry (some (some policy)) = returned (some policy)

unfoldable pub read_policy : Kv → String → Throws (Option Value)
unfolding lookup
read_policy kv issuer = read_entry (lookup issuer kv.jwt_validation)

-- The name of an issuer; `strToBuf` throws on anything but a text.
issuer_name : Value → Throws String
issuer_name (str s) = returned s
issuer_name _ = thrown type_error

check_policy : Value → Option Value → Throws (ServiceResult Value)
unfolding entries jwt_loop
check_policy payload none = returned (failed issuer_not_in_policy 500)
check_policy payload (some policy) = do
  keys ← or_throw type_error (entries policy)
  returned (jwt_loop keys payload)

-- `JwtValidator.validate`, with the `iss` of the token.
with_issuer : Kv → Value → Value → Throws (ServiceResult Value)
unfolding truthy issuer_name read_policy check_policy
with_issuer kv payload iss =
    if not (truthy iss)
    then returned (failed jwt_no_issuer 400)
    else do issuer ← issuer_name iss; policy ← read_policy kv issuer; check_policy payload policy

unfoldable pub validate_jwt : Kv → Value → Throws (ServiceResult Value)
unfolding member with_issuer
validate_jwt kv payload = with_issuer kv payload (member payload "iss")

abbrev has_id : String → List String → Bool
has_id id ids = any (λ i. i == id) ids

-- `isUser`, of both user validators
abbrev is_user : Kv → String → ServiceResult Bool
is_user kv id = succeeded (has_id id kv.users_certs)

is_active_member : Kv → String → ServiceResult Bool
unfolding lookup truthy member strict_eq
is_active_member kv id = elim (lookup id kv.members_info) [
  | none ↦ failed member_information_undefined 400
  | some info ↦
      succeeded (
        truthy info
        && strict_eq (member info "status") (str "Active")
        && has_id id kv.members_certs)
]

-- `if (isValid.success && isValid.body) Succeeded(id) else Failed(...)`
accept_if : ServiceResult Bool → String → ServiceResult Value
accept_if (succeeded true) id = succeeded (str id)
accept_if _ id = failed (authentication_error invalid_caller_identity) 400

-- `UserCoseValidator.validate`, which asks for `isValid.failure` only.
validate_cose : Kv → Request → String → ℕ → ServiceResult Value
validate_cose kv request id content_length =
    if ltb 0 request.body_length && eqb content_length 0
    then failed no_cose_content 401
    else elim (is_user kv id) [
      | failed _ _ ↦ failed (authentication_error invalid_caller_identity) 401
      | _ ↦ succeeded (str id)
    ]

-- The validator of the caller's policy; a policy with none is a call on undefined.
validate : Kv → Request → Caller → Throws (ServiceResult Value)
unfolding validate_jwt is_active_member accept_if validate_cose
validate kv request (jwt payload) = validate_jwt kv payload
validate kv request (user_cert id) = returned (accept_if (is_user kv id) id)
validate kv request (member_cert id) = returned (accept_if (is_active_member kv id) id)
validate kv request (user_cose_sign1 id content_length) =
    returned (validate_cose kv request id content_length)
validate kv request (other policy) = thrown type_error

-- `AuthenticationService.isAuthenticated`: the result, without the caller that is handed on.
unfoldable pub is_authenticated : Kv → Request → ServiceResult Value
unfolding validate
is_authenticated kv request = elim request.caller [
  | none ↦ succeeded (str "")
  | some caller ↦ catching authentication_error 400 (validate kv request caller)
]
