-- ===== src/Service/PolicyLists.antt =====
-- The claims of the two key release policies in the store, which the actions change.
use mathlib.Core.Path.{subst}
use depa_kms_gcp_oidc.Prelude.{◌≡◌, String, some, List}
use depa_kms_gcp_oidc.Js.{Value, member}
use depa_kms_gcp_oidc.ServiceResult.{Throws, returned, ◌>>=◌, bind-eq-returned, returned-injective}
use depa_kms_gcp_oidc.Repositories.{Kv}
use depa_kms_gcp_oidc.Governance.KeyRelease.{
  set_release_policy, set_key_release_policy, set_gcp_key_release_policy,
}
use depa_kms_gcp_oidc.Governance.KeyRelease.Contents.{AreLists}
use depa_kms_gcp_oidc.Governance.KeyRelease.Parts.{part_items}
use depa_kms_gcp_oidc.Governance.KeyRelease.Lists.{set_release_policy-AreLists}
use depa_kms_gcp_oidc.Governance.Tables.{
  Action, actions, action_of, checked_rotation_policy, set_key_rotation_policy, checked_settings,
  set_settings_policy, checked_token_policy, set_jwt_validation_policy,
}
use depa_kms_gcp_oidc.Governance.Tables.Frame.{action_of-any}
use depa_kms_gcp_oidc.Endpoints.Proposals.Accepted.{Applied}

-- Both policies of the store have lists.
abbrev pub HasPolicyLists : Kv → Type 0
HasPolicyLists kv =
    AreLists (part_items kv.key_release "claims")
    × AreLists (part_items kv.gcp_key_release "claims")

abbrev pub LeavesLists : Action → Type 0
LeavesLists action =
    (args : Value) (kv kv' : Kv)
    → action args kv ≡ returned kv'
    → HasPolicyLists kv
    → HasPolicyLists kv'

bind-HasPolicyLists {ℓ} :
    {A : Type ℓ} (m : Throws A) (store : A → Kv) {kv' : Kv}
    → ((a : A) → m ≡ returned a → HasPolicyLists (store a))
    → (m >>= λ a. returned (store a)) ≡ returned kv'
    → HasPolicyLists kv'
bind-HasPolicyLists m store lists h =
    let (a, checked, stored) = bind-eq-returned m _ h in
    subst HasPolicyLists (returned-injective stored) (lists a checked)

pub action_of-LeavesLists :
    (name : String) {action : Action} → action_of name ≡ some action → LeavesLists action
unfolding actions set_settings_policy set_key_release_policy set_gcp_key_release_policy
    set_key_rotation_policy set_jwt_validation_policy
action_of-LeavesLists = action_of-any LeavesLists (
  λ args kv kv' h lists. bind-HasPolicyLists (checked_settings args) _ (λ _ _. lists) h,
  (
    λ args kv kv' h lists.
        bind-HasPolicyLists (set_release_policy args kv.key_release) _
          (λ table done. (set_release_policy-AreLists args kv.key_release lists.0 done, lists.1)) h,
    (
      λ args kv kv' h lists.
          bind-HasPolicyLists (set_release_policy args kv.gcp_key_release) _
            (λ table done.
              (lists.0, set_release_policy-AreLists args kv.gcp_key_release lists.1 done))
            h,
      (
        λ args kv kv' h lists.
            bind-HasPolicyLists (checked_rotation_policy args) _ (λ _ _. lists) h,
        (
          λ args kv kv' h lists. bind-HasPolicyLists (checked_token_policy args) _ (λ _ _. lists) h,
          tt,
        ),
      ),
    ),
  ),
)

pub Applied-LeavesLists :
    {actions : List Value} {kv after : Kv}
    → Applied actions kv after
    → HasPolicyLists kv
    → HasPolicyLists after
Applied-LeavesLists Applied.done lists = lists
Applied-LeavesLists
      (Applied.step {kv = kv} {next = next} {a = a} name action named known applied rest) lists =
    Applied-LeavesLists rest
      (action_of-LeavesLists name known (member a "args") kv next applied lists)
