-- ===== src/Governance/Tables/Frame.antt =====
-- What no action of the table touches: the keys, their numbers and the proposals.
use mathlib.Core.Path.{subst}
use depa_kms_gcp_oidc.Prelude.{
  ◌≡◌, refl, String, some, List, [], ◌∷◌, All, lookup, Bool-cases, inl, inr, ◌==◌,
}
use depa_kms_gcp_oidc.Js.{Value}
use depa_kms_gcp_oidc.ServiceResult.{Throws, returned, ◌>>=◌, bind-eq-returned, returned-injective}
use depa_kms_gcp_oidc.Repositories.{Kv}
use depa_kms_gcp_oidc.Governance.KeyRelease.{
  set_release_policy, set_key_release_policy, set_gcp_key_release_policy,
}
use depa_kms_gcp_oidc.Governance.Tables.{
  Action, actions, checked_rotation_policy, set_key_rotation_policy, checked_settings,
  set_settings_policy, checked_token_policy, set_jwt_validation_policy, action_of,
}

lookup-All {ℓ κ} :
    {A : Type ℓ} (P : A → Type κ) (key : String) (table : List (String × A)) {a : A}
    → All (λ entry. P entry.1) table
    → lookup key table ≡ some a
    → P a
unfolding lookup
lookup-All P key [] ps h = cc
lookup-All P key ((name, b) ∷ table) (p, ps) h = elim (Bool-cases (name == key)) [
  | inl same ↦ let h' = rw (same, lookup) at h in subst P (cc h') p
  | inr other ↦ lookup-All P key table ps (rw (other, lookup) at h)
]

-- What holds of the five actions holds of each known action.
pub action_of-any {κ} :
    (P : Action → Type κ)
    → All (λ entry. P entry.1) actions
    → (name : String) {action : Action} → action_of name ≡ some action
    → P action
unfolding action_of
action_of-any P ps name h = lookup-All P name actions ps h

-- The keys and their numbers are the same.
pub record SameKeys (kv kv' : Kv) : Type 0 where
  pub hpke_keys : kv'.hpke_keys ≡ kv.hpke_keys
  pub hpke_key_ids : kv'.hpke_key_ids ≡ kv.hpke_key_ids

-- The proposals are the same, too.
abbrev pub Untouched : Kv → Kv → Type 0
Untouched kv kv' = SameKeys kv kv' × (kv'.proposals ≡ kv.proposals)

abbrev LeavesKeys : Action → Type 0
LeavesKeys action = (args : Value) (kv kv' : Kv) → action args kv ≡ returned kv' → Untouched kv kv'

-- An action that puts what it has checked into a policy table.
bind-Untouched {ℓ} :
    {A : Type ℓ} (m : Throws A) (store : A → Kv) (kv : Kv) {kv' : Kv}
    → ((a : A) → Untouched kv (store a))
    → (m >>= λ a. returned (store a)) ≡ returned kv'
    → Untouched kv kv'
bind-Untouched m store kv same h =
    let (a, checked, stored) = bind-eq-returned m _ h in
    subst (Untouched kv) (returned-injective stored) (same a)

pub action_of-Untouched :
    (name : String) {action : Action}
    → action_of name ≡ some action
    → (args : Value) (kv kv' : Kv) → action args kv ≡ returned kv'
    → Untouched kv kv'
unfolding actions set_settings_policy set_key_release_policy set_gcp_key_release_policy
    set_key_rotation_policy set_jwt_validation_policy
action_of-Untouched = action_of-any LeavesKeys (
  λ args kv kv' h.
      bind-Untouched (checked_settings args) _ kv
        (λ _. (record { hpke_keys = refl; hpke_key_ids = refl }, refl)) h,
  (
    λ args kv kv' h.
        bind-Untouched (set_release_policy args kv.key_release) _ kv
          (λ _. (record { hpke_keys = refl; hpke_key_ids = refl }, refl)) h,
    (
      λ args kv kv' h.
          bind-Untouched (set_release_policy args kv.gcp_key_release) _ kv
            (λ _. (record { hpke_keys = refl; hpke_key_ids = refl }, refl)) h,
      (
        λ args kv kv' h.
            bind-Untouched (checked_rotation_policy args) _ kv
              (λ _. (record { hpke_keys = refl; hpke_key_ids = refl }, refl)) h,
        (
          λ args kv kv' h.
              bind-Untouched (checked_token_policy args) _ kv
                (λ _. (record { hpke_keys = refl; hpke_key_ids = refl }, refl)) h,
          tt,
        ),
      ),
    ),
  ),
)
