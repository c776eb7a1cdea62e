-- ===== src/Governance/Tests.antt =====
-- Runs of the governance actions.
use depa_kms_gcp_oidc.Prelude.{
  ◌≡◌, refl, String, true, not, ◌&&◌, ◌||◌, some, [], ◌∷◌, lookup, Bool-cases, inl, inr, ◌==◌,
}
use depa_kms_gcp_oidc.Prelude.Int.{pos}
use depa_kms_gcp_oidc.Js.{
  Value, Values, str, num, arr, obj, nil, cons, end, field, of_ℕ, member, elems,
}
use depa_kms_gcp_oidc.ServiceResult.{returned, thrown, type_error}
use depa_kms_gcp_oidc.Fixtures.{store, at_least, token_policy}
use depa_kms_gcp_oidc.Policies.KeyRotation.{KeyRotationPolicy}
use depa_kms_gcp_oidc.Repositories.{Kv}
use depa_kms_gcp_oidc.Authorization.{read_policy}
use depa_kms_gcp_oidc.Endpoints.ServiceRequest.{default_settings}
use depa_kms_gcp_oidc.Governance.KeyRelease.{
  Items, Table, is_allowed, without, remove_claim, set_release_policy,
}
use depa_kms_gcp_oidc.Governance.KeyRelease.Contents.{AreLists, listed, asked}
use depa_kms_gcp_oidc.Governance.KeyRelease.Parts.{part_items}
use depa_kms_gcp_oidc.Governance.KeyRelease.Adding.{set_release_policy-add}
use depa_kms_gcp_oidc.Governance.KeyRelease.Removing.{
  set_release_policy-remove, remove_claim-emptied,
}
use depa_kms_gcp_oidc.Governance.Tables.{
  set_key_rotation_policy, set_settings_policy, set_jwt_validation_policy,
}
use depa_kms_gcp_oidc.Governance.Tables.Effects.{
  policy_after, set_jwt_validation_policy-read_policy,
}

-- An action on the versions of the attestation, and the table with some versions.
abbrev arguments : (type version : String) → Value
arguments type version =
    obj (field "type" (str type) (field "claims" (obj (field "x-ms-ver" (str version) end)) end))

abbrev versions : Values → Table
versions vs = ("claims", some (obj (field "x-ms-ver" (arr vs) end))) ∷ ("gte", some at_least) ∷ []

abbrev two : Values
two = cons (str "2") (cons (str "3") nil)

abbrev three : Values
three = cons (str "2") (cons (str "3") (cons (str "4") nil))

versions-AreLists : AreLists (part_items (versions two) "claims")
unfolding lookup
versions-AreLists key v h = elim (Bool-cases ("x-ms-ver" == key)) [
  | inl same ↦ let h' = rw same at h in (two, cc h')
  | inr other ↦ let h' = rw other at h in cc
]

add_run : set_release_policy (arguments "add" "4") (versions two) ≡ returned (versions three)
unfolding set_release_policy
add_run = refl

set_release_policy-add_example :
    AreLists (part_items (versions three) "claims")
    × ((key : String) (s : Value)
        → listed (part_items (versions three) "claims") key s ≡ (
            listed (part_items (versions two) "claims") key s
            || asked (member (arguments "add" "4") "claims") key s))
unfolding member
set_release_policy-add_example =
    set_release_policy-add (arguments "add" "4") (versions two) versions-AreLists refl add_run

remove_run : set_release_policy (arguments "remove" "4") (versions three) ≡ returned (versions two)
unfolding set_release_policy
remove_run = refl

set_release_policy-remove_example :
    listed (part_items (versions two) "claims") "x-ms-ver" (str "4") ≡ (
      listed (part_items (versions three) "claims") "x-ms-ver" (str "4")
      && not (asked (member (arguments "remove" "4") "claims") "x-ms-ver" (str "4")))
unfolding member
set_release_policy-remove_example =
    set_release_policy-remove (arguments "remove" "4") (versions three) refl remove_run "x-ms-ver"
      (str "4")

abbrev one_version : Items
one_version = ("x-ms-ver", arr (cons (str "2") nil)) ∷ []

allowed_run : is_allowed "x-ms-ver" ≡ true
unfolding is_allowed
allowed_run = refl

there_run : lookup "x-ms-ver" one_version ≡ some (arr (cons (str "2") nil))
unfolding lookup
there_run = refl

empties_run : without (elems (cons (str "2") nil)) (str "2") ≡ []
unfolding without
empties_run = refl

remove_claim-emptied_example :
    remove_claim one_version "x-ms-ver" (arr (cons (str "2") (cons (str "3") nil)))
    ≡ thrown type_error
remove_claim-emptied_example =
    remove_claim-emptied one_version "x-ms-ver" (cons (str "2") nil) nil (str "2") (str "3")
      allowed_run there_run empties_run

abbrev token_arguments : Value
token_arguments = obj (field "issuer" (str "other") (field "validation_policy" token_policy end))

abbrev with_other_issuer : Kv
with_other_issuer = record store {
  jwt_validation = ("issuer", some token_policy) ∷ ("other", some token_policy) ∷ [];
}

token_run : set_jwt_validation_policy token_arguments store ≡ returned with_other_issuer
unfolding set_jwt_validation_policy
token_run = refl

set_jwt_validation_policy-read_policy_example :
    (issuer : String) × (member token_arguments "issuer" ≡ str issuer)
    × ((other : String)
        → read_policy with_other_issuer other
          ≡ policy_after issuer other
              (member token_arguments "validation_policy")
              (read_policy store other))
set_jwt_validation_policy-read_policy_example =
    set_jwt_validation_policy-read_policy token_arguments store token_run

abbrev rotation_arguments : Value
rotation_arguments = obj (
    field "key_rotation_policy"
      (obj (
        field "rotation_interval_seconds" (num (of_ℕ 120))
          (field "grace_period_seconds" (num (of_ℕ 5)) end)))
      end)

abbrev new_rotation : KeyRotationPolicy
new_rotation = record { rotation_interval_seconds = pos 120; grace_period_seconds = pos 5 }

abbrev with_new_rotation : Kv
with_new_rotation = record store { key_rotation = ("key_rotation_policy", some new_rotation) ∷ [] }

rotation_run : set_key_rotation_policy rotation_arguments store ≡ returned with_new_rotation
unfolding set_key_rotation_policy
rotation_run = refl

abbrev settings_arguments : Value
settings_arguments = obj (field "settings_policy" default_settings end)

abbrev with_settings : Kv
with_settings = record store { settings = ("settings_policy", some default_settings) ∷ [] }

settings_run : set_settings_policy settings_arguments store ≡ returned with_settings
unfolding set_settings_policy default_settings
settings_run = refl
