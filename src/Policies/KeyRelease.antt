-- ===== src/Policies/KeyRelease.antt =====
-- src/policies/KeyReleasePolicy.ts: which attestation claims a policy accepts. A stored text is
-- what `JSON.parse` makes of it, `none` where that throws.
pub mod Claims
pub mod Operators
pub mod Verdict
pub mod Outcome
use depa_kms_gcp_oidc.Prelude.{
  ℕ, ◌≡◌, String, Bool, true, false, not, ◌&&◌, Option, none, some, List, [], ◌∷◌, ◌==◌, lookup,
  if◌then◌else◌,
}
use depa_kms_gcp_oidc.Js.{
  Value, undefined, num, str, Fields, obj, end, Number, nan, member, is_nullish, is_undefined,
  as_array, to_string, entries, is_nan, num_leb, num_ltb, parse_float,
}
use depa_kms_gcp_oidc.ServiceResult.{
  ErrorMessage, type_error, missing_key_release_policy, missing_attestation_claims,
  empty_policy_claims, missing_claim, claim_mismatch, missing_policy_value, policy_value_not_number,
  not_greater_or_equal, not_greater, policy_not_in_map, policy_not_json, ServiceResult, succeeded,
  failed, Throws, returned, thrown, ◌>>=◌, or_throw, success,
}

pub data KeyReleasePolicyType : Type 0 where
  add remove : KeyReleasePolicyType

-- `gte` and `gt` are undefined where the policy has none.
pub record KeyReleasePolicy : Type 0 where
  pub type : KeyReleasePolicyType
  pub claims : Value
  pub gte : Value
  pub gt : Value

-- `policyValue.filter((p) => p.toString() === attestationValue.toString())`
matching : Value → List Value → Throws (List Value)
unfolding to_string
matching a [] = returned []
matching a (p ∷ ps) = do
  wanted ← or_throw type_error (to_string p)
  found ← or_throw type_error (to_string a)
  rest ← matching a ps
  returned (if wanted == found then p ∷ rest else rest)

abbrev is_empty : List Value → Bool
is_empty [] = true
is_empty (_ ∷ _) = false

-- One round of the loop of `validateKeyReleasePolicyClaims`; `none` goes on to the next key.
check_claim : String → Value → Value → Throws (Option ErrorMessage)
unfolding is_undefined member as_array matching
check_claim key policy_value claims =
    let found = member claims key in
    if is_undefined found then returned (some (missing_claim key)) else do
      wanted ← or_throw type_error (as_array policy_value)
      matches ← matching found wanted
      returned (if is_empty matches then some (claim_mismatch key) else none)

unfoldable pub claims_loop : List (String × Value) → Value → Throws (ServiceResult Value)
unfolding check_claim
claims_loop [] claims = returned (succeeded claims)
claims_loop ((key, policy_value) ∷ rest) claims = check_claim key policy_value claims >>= λ r.
    elim r [ some e ↦ returned (failed e 400) | none ↦ claims_loop rest claims ]

unfoldable pub validate_claims : Value → Value → Throws (ServiceResult Value)
unfolding is_nullish entries claims_loop
validate_claims policy_claims claims =
    if is_nullish policy_claims
    then returned (failed missing_key_release_policy 500)
    else if is_nullish claims
    then returned (failed missing_attestation_claims 500)
    else do keys ← or_throw type_error (entries policy_claims); claims_loop keys claims

pub data Operator : Type 0 where
  gte gt : Operator

-- The policy value as a number, if it is one or a text that starts with one.
unfoldable pub policy_number : Value → Option Number
unfolding is_nan
policy_number (num n) = some n
policy_number (str s) = let n = parse_float s in elim (is_nan n) [ true ↦ none | false ↦ some n ]
policy_number _ = none

-- `parseFloat` of anything but a number reads its text.
unfoldable pub attestation_number : Value → Number
unfolding to_string
attestation_number (num n) = n
attestation_number v = elim (to_string v) [ none ↦ nan | some s ↦ parse_float s ]

abbrev pub compare_with : Operator → Number → Number → Bool
compare_with gte policy found = num_leb policy found
compare_with gt policy found = num_ltb policy found

abbrev not_satisfied : Operator → String → ErrorMessage
not_satisfied gte key = not_greater_or_equal key
not_satisfied gt key = not_greater key

compare_numbers : Operator → String → Option Number → Number → Option (ErrorMessage × ℕ)
compare_numbers op key none found = some (policy_value_not_number key, 400)
compare_numbers op key (some policy) found =
    if compare_with op policy found then none else some (not_satisfied op key, 400)

-- One round of the loop of `validateKeyReleasePolicyOperators`.
check_operator : Operator → String → Value → Value → Option (ErrorMessage × ℕ)
unfolding is_undefined member is_nullish policy_number attestation_number compare_numbers
check_operator op key policy_value claims =
    let found = member claims key in
    if is_undefined found
    then some (missing_claim key, 400)
    else if is_nullish policy_value
    then some (missing_policy_value key, 500)
    else compare_numbers op key (policy_number policy_value) (attestation_number found)

pub operators_loop : Operator → List (String × Value) → Value → ServiceResult Value
unfolding check_operator
operators_loop op [] claims = succeeded claims
operators_loop op ((key, policy_value) ∷ rest) claims =
    elim (check_operator op key policy_value claims) [
      | some (e, status) ↦ failed e status
      | none ↦ operators_loop op rest claims
    ]

unfoldable pub validate_operators : Operator → Value → Value → ServiceResult Value
unfolding is_nullish entries operators_loop
validate_operators op policy_claims claims =
    if is_nullish policy_claims
    then failed missing_key_release_policy 500
    else if is_nullish claims
    then failed missing_attestation_claims 500
    else elim (entries policy_claims) [
      | none ↦ failed missing_key_release_policy 500
      | some keys ↦ operators_loop op keys claims
    ]

-- `if (operator !== null && operator !== undefined) policyValidationResult = ...`
apply_operator : Operator → Value → Value → ServiceResult Value → ServiceResult Value
unfolding is_nullish
apply_operator op policy_claims claims result =
    if is_nullish policy_claims then result else validate_operators op policy_claims claims

abbrev has_keys : List (String × Value) → Bool
has_keys [] = false
has_keys (_ ∷ _) = true

unfoldable pub validate_key_release_policy : KeyReleasePolicy → Value → Throws (ServiceResult Value)
unfolding entries apply_operator
validate_key_release_policy policy claims = do
  keys ← or_throw type_error (entries policy.claims)
  if not (has_keys keys) then returned (failed empty_policy_claims 400) else do
    result ← validate_claims policy.claims claims
    returned (
        if success result
        then apply_operator gt policy.gt claims (apply_operator gte policy.gte claims result)
        else result)

-- The value of a key of the policy table, undefined where it may be and is missing.
policy_part : List (String × Option Value) → String → (optional : Bool) → Throws Value
unfolding lookup
policy_part map key optional = elim (lookup key map) [
  | none ↦ if optional then returned undefined else thrown (policy_not_in_map key)
  | some text ↦ or_throw (policy_not_json key) text
]

unfoldable pub get_key_release_policy_from_map :
    List (String × Option Value) → Throws KeyReleasePolicy
unfolding policy_part
get_key_release_policy_from_map map = do
  claims ← policy_part map "claims" false
  at_least ← policy_part map "gte" true
  above ← policy_part map "gt" true
  returned (record { type = add; claims = claims; gte = at_least; gt = above })
