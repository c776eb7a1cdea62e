-- ===== src/Governance/Tables.antt =====
-- src/actions/set_key_rotation_policy.js, set_settings_policy.js, set_jwt_validation_policy.js and
-- actions.ts: the actions that store a policy as a whole, and the table of all actions.
pub mod Effects
pub mod Frame
use depa_kms_gcp_oidc.Prelude.{
  String, Bool, not, ◌&&◌, Option, none, some, List, [], ◌∷◌, lookup, insert, erase, if◌then◌else◌,
  ◌==◌, any,
}
use depa_kms_gcp_oidc.Js.{Value, str, member, is_nullish, truthy, as_array, entries}
use depa_kms_gcp_oidc.ServiceResult.{type_error, Throws, returned, thrown, ◌>>=◌, ◌>>◌, or_throw}
use depa_kms_gcp_oidc.Policies.KeyRotation.{KeyRotationPolicy}
use depa_kms_gcp_oidc.Repositories.{Kv}
use depa_kms_gcp_oidc.Governance.Checks.{check_type, checked_integer}
use depa_kms_gcp_oidc.Governance.KeyRelease.{set_key_release_policy, set_gcp_key_release_policy}

-- `v[key]`, with the TypeError of null and undefined.
unfoldable pub attribute : Value → String → Throws Value
unfolding is_nullish member
attribute v key = if is_nullish v then thrown type_error else returned (member v key)

abbrev pub interval_field : String
interval_field = "Number_of_seconds_between_key_rotations"

abbrev pub grace_field : String
grace_field = "Number_of_seconds_to_allow_an_expired_key_to_be_used_by_clients"

-- The policy with its two integers, which are all that is read of it.
pub checked_rotation_policy : Value → Throws KeyRotationPolicy
unfolding attribute checked_integer check_type
checked_rotation_policy args = do
  policy ← attribute args "key_rotation_policy"
  check_type policy "object" "set_key_rotation_policy"
  rotation ← attribute policy "rotation_interval_seconds"
  interval ← checked_integer rotation interval_field
  period ← attribute policy "grace_period_seconds"
  grace ← checked_integer period grace_field
  returned (record { rotation_interval_seconds = interval; grace_period_seconds = grace })

unfoldable pub set_key_rotation_policy : Value → Kv → Throws Kv
unfolding checked_rotation_policy insert
set_key_rotation_policy args kv = checked_rotation_policy args >>= λ policy.
    returned
      (record kv { key_rotation = insert "key_rotation_policy" (some policy) kv.key_rotation })

check_service : Value → Throws (Unit {0})
unfolding check_type member
check_service service = do
  check_type (member service "name") "string" "undefined"
  check_type (member service "description") "string" "undefined"
  check_type (member service "version") "string" "undefined"
  check_type (member service "debug") "boolean" "undefined"

-- The settings that pass the checks of `set_settings_policy`.
pub checked_settings : Value → Throws Value
unfolding attribute check_service
checked_settings args = do
  settings ← attribute args "settings_policy"
  check_type settings "object" "settings_policy"
  service ← attribute settings "service"
  check_type service "object" "service"
  if is_nullish service then thrown type_error else check_service service >> returned settings

unfoldable pub set_settings_policy : Value → Kv → Throws Kv
unfolding checked_settings insert
set_settings_policy args kv = checked_settings args >>= λ settings.
    returned (record kv { settings = insert "settings_policy" (some settings) kv.settings })

-- The loop over the claims of a token policy: a claim is a list of any values, or a text.
check_claims : List (String × Value) → Throws (Unit {0})
unfolding as_array check_type
check_claims [] = returned tt
check_claims ((key, v) ∷ claims) =
    let rest = check_claims claims in
    elim (as_array v) [ some _ ↦ rest | none ↦ check_type v "string" key >> rest ]

-- `if (policy) Object.keys(policy).forEach(...)`
check_token_policy : Value → Throws (Unit {0})
unfolding truthy entries check_claims
check_token_policy policy =
    if truthy policy then or_throw type_error (entries policy) >>= check_claims else returned tt

-- The text that has passed the check of the issuer.
issuer_text : Value → Throws String
issuer_text (str s) = returned s
issuer_text _ = thrown type_error

-- The issuer and its policy, once `set_jwt_validation_policy` has checked them.
pub checked_token_policy : Value → Throws (String × Value)
unfolding attribute check_token_policy issuer_text
checked_token_policy args = do
  issuer ← attribute args "issuer"
  check_type issuer "string" "issuer"
  policy ← attribute args "validation_policy"
  check_type policy "object" "validation_policy"
  check_token_policy policy
  name ← issuer_text issuer
  returned (name, policy)

-- The policy of the issuer is deleted, and then set.
unfoldable pub set_jwt_validation_policy : Value → Kv → Throws Kv
unfolding checked_token_policy insert erase
set_jwt_validation_policy args kv = checked_token_policy args >>= λ (issuer, policy).
    returned
      (record kv { jwt_validation = insert issuer (some policy) (erase issuer kv.jwt_validation) })

abbrev pub Action : Type 0
Action = Value → Kv → Throws Kv

-- The actions by their names, each with its `validate` and then its `apply`.
unfoldable pub actions : List (String × Action)
actions =
    ("set_settings_policy", set_settings_policy)
    ∷ ("set_key_release_policy", set_key_release_policy)
    ∷ ("set_gcp_key_release_policy", set_gcp_key_release_policy)
    ∷ ("set_key_rotation_policy", set_key_rotation_policy)
    ∷ ("set_jwt_validation_policy", set_jwt_validation_policy)
    ∷ []

-- `actions.get(name)`
unfoldable pub action_of : String → Option Action
unfolding lookup actions
action_of name = lookup name actions
