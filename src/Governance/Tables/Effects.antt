-- ===== src/Governance/Tables/Effects.antt =====
-- What the services read after the actions that store a policy as a whole.
use depa_kms_gcp_oidc.Prelude.{
  ◌≡◌, refl, sym, ap, ◌∙◌, String, Option, some, lookup, insert, erase, lookup-insert, lookup-erase,
  ◌==◌, Bool-cases, inl, inr, if◌then◌else◌,
}
use depa_kms_gcp_oidc.Js.{Value, str, member, undefined, null, bool, num, arr, obj, is_nullish}
use depa_kms_gcp_oidc.ServiceResult.{
  Throws, returned, bind-eq-returned, returned-injective, or_throw-eq-returned, wrong_type,
}
use depa_kms_gcp_oidc.Policies.KeyRotation.{KeyRotationPolicy, get_key_rotation_policy_from_map}
use depa_kms_gcp_oidc.Repositories.{Kv}
use depa_kms_gcp_oidc.Authorization.{read_entry, read_policy}
use depa_kms_gcp_oidc.Endpoints.ServiceRequest.{load_settings_from_map}
use depa_kms_gcp_oidc.Governance.Checks.{check_type, as_integer, checked_integer}
use depa_kms_gcp_oidc.Governance.Tables.{
  attribute, interval_field, grace_field, checked_rotation_policy, set_key_rotation_policy,
  checked_settings, set_settings_policy, check_token_policy, issuer_text, checked_token_policy,
  set_jwt_validation_policy, check_service,
}

pub attribute-eq-returned :
    (v : Value) (key : String) {a : Value} → attribute v key ≡ returned a → member v key ≡ a
unfolding attribute is_nullish
attribute-eq-returned undefined key h = cc
attribute-eq-returned null key h = cc
attribute-eq-returned (bool b) key h = cc h
attribute-eq-returned (num n) key h = cc h
attribute-eq-returned (str s) key h = cc h
attribute-eq-returned (arr vs) key h = cc h
attribute-eq-returned (obj fs) key h = cc h

issuer_text-eq-returned : (v : Value) {s : String} → issuer_text v ≡ returned s → v ≡ str s
unfolding issuer_text
issuer_text-eq-returned (str s) h = cc h
issuer_text-eq-returned undefined h = cc
issuer_text-eq-returned null h = cc
issuer_text-eq-returned (bool b) h = cc
issuer_text-eq-returned (num n) h = cc
issuer_text-eq-returned (arr vs) h = cc
issuer_text-eq-returned (obj fs) h = cc

checked_token_policy-eq-returned :
    (args : Value) {issuer : String} {policy : Value}
    → checked_token_policy args ≡ returned (issuer, policy)
    → (member args "issuer" ≡ str issuer) × (member args "validation_policy" ≡ policy)
unfolding checked_token_policy
checked_token_policy-eq-returned args {issuer} {policy} h =
    let (v, read, h1) = bind-eq-returned (attribute args "issuer") _ h in
    let (_, _, h2) = bind-eq-returned (check_type v "string" "issuer") _ h1 in
    let (p, given, h3) = bind-eq-returned (attribute args "validation_policy") _ h2 in
    let (_, _, h4) = bind-eq-returned (check_type p "object" "validation_policy") _ h3 in
    let (_, _, h5) = bind-eq-returned (check_token_policy p) _ h4 in
    let (name, text, h6) = bind-eq-returned (issuer_text v) _ h5 in
    let same : name ≡ issuer = cc h6 in
    let same' : p ≡ policy = cc h6 in
    (
      attribute-eq-returned args "issuer" read ∙ issuer_text-eq-returned v text ∙ ap str same,
      attribute-eq-returned args "validation_policy" given ∙ same',
    )

-- What an issuer's policy is read as after the action.
abbrev pub policy_after :
    (issuer asked : String) → Value → Throws (Option Value) → Throws (Option Value)
policy_after issuer other policy before = if issuer == other then returned (some policy) else before

-- When `set_jwt_validation_policy` passes, the issuer is a text, the validator reads the policy of the
-- action for that issuer, and for any other issuer what it read before.
pub set_jwt_validation_policy-read_policy :
    (args : Value) (kv : Kv) {kv' : Kv}
    → set_jwt_validation_policy args kv ≡ returned kv'
    → (issuer : String) × (member args "issuer" ≡ str issuer)
      × ((other : String)
          → read_policy kv' other
            ≡ policy_after issuer other (member args "validation_policy") (read_policy kv other))
unfolding set_jwt_validation_policy read_policy
set_jwt_validation_policy-read_policy args kv {kv'} h =
    let ((issuer, policy), checked, h1) = bind-eq-returned (checked_token_policy args) _ h in
    let (named, given) = checked_token_policy-eq-returned args checked in
    let stored : insert issuer (some policy) (erase issuer kv.jwt_validation) ≡ kv'.jwt_validation =
      ap (λ k. k.jwt_validation) (returned-injective h1) in
    (
      issuer,
      named,
      λ other.
          ap (λ table. read_entry (lookup other table)) (sym stored)
          ∙ ap read_entry
              (lookup-insert issuer other (some policy) (erase issuer kv.jwt_validation))
          ∙ elim (Bool-cases (issuer == other)) [
            | inl same ↦ rw same (ap (λ p. returned (some p)) (sym given))
            | inr apart ↦
                rw apart
                  (ap read_entry (lookup-erase issuer other kv.jwt_validation ∙ rw apart refl))
          ],
    )

checked_rotation_policy-eq-returned :
    (args : Value) {policy : KeyRotationPolicy}
    → checked_rotation_policy args ≡ returned policy
    → (as_integer (member (member args "key_rotation_policy") "rotation_interval_seconds")
        ≡ some policy.rotation_interval_seconds)
      × (as_integer (member (member args "key_rotation_policy") "grace_period_seconds")
          ≡ some policy.grace_period_seconds)
unfolding checked_rotation_policy checked_integer
checked_rotation_policy-eq-returned args {policy} h =
    let (p, given, h1) = bind-eq-returned (attribute args "key_rotation_policy") _ h in
    let (_, _, h2) = bind-eq-returned (check_type p "object" "set_key_rotation_policy") _ h1 in
    let (rotation, read, h3) = bind-eq-returned (attribute p "rotation_interval_seconds") _ h2 in
    let (interval, whole, h4) = bind-eq-returned (checked_integer rotation interval_field) _ h3 in
    let (period, read', h5) = bind-eq-returned (attribute p "grace_period_seconds") _ h4 in
    let (grace, whole', h6) = bind-eq-returned (checked_integer period grace_field) _ h5 in
    let made : record { rotation_interval_seconds = interval; grace_period_seconds = grace }
        ≡ policy =
      cc h6 in
    let is_p = attribute-eq-returned args "key_rotation_policy" given in
    (
      ap (λ v. as_integer (member v "rotation_interval_seconds")) is_p
          ∙ ap as_integer (attribute-eq-returned p "rotation_interval_seconds" read)
          ∙ or_throw-eq-returned (wrong_type interval_field) (as_integer rotation) whole
          ∙ ap some (ap (λ r. r.rotation_interval_seconds) made),
      ap (λ v. as_integer (member v "grace_period_seconds")) is_p
          ∙ ap as_integer (attribute-eq-returned p "grace_period_seconds" read')
          ∙ or_throw-eq-returned (wrong_type grace_field) (as_integer period) whole'
          ∙ ap some (ap (λ r. r.grace_period_seconds) made),
    )

-- When `set_key_rotation_policy` passes, the service reads a policy whose interval and grace period are
-- the integers of the action.
pub set_key_rotation_policy-read :
    (args : Value) (kv : Kv) {kv' : Kv}
    → set_key_rotation_policy args kv ≡ returned kv'
    → (policy : KeyRotationPolicy) × (get_key_rotation_policy_from_map kv'.key_rotation
        ≡ returned (some policy))
      × (as_integer (member (member args "key_rotation_policy") "rotation_interval_seconds")
          ≡ some policy.rotation_interval_seconds)
      × (as_integer (member (member args "key_rotation_policy") "grace_period_seconds")
          ≡ some policy.grace_period_seconds)
unfolding set_key_rotation_policy get_key_rotation_policy_from_map
set_key_rotation_policy-read args kv {kv'} h =
    let (policy, checked, h1) = bind-eq-returned (checked_rotation_policy args) _ h in
    let stored : insert "key_rotation_policy" (some policy) kv.key_rotation ≡ kv'.key_rotation =
      ap (λ k. k.key_rotation) (returned-injective h1) in
    let found =
      ap (lookup "key_rotation_policy") (sym stored)
      ∙ lookup-insert "key_rotation_policy" "key_rotation_policy" (some policy) kv.key_rotation in
    let (interval, grace) = checked_rotation_policy-eq-returned args checked in
    (policy, rw (found, get_key_rotation_policy_from_map) refl, interval, grace)

checked_settings-eq-returned :
    (args : Value) {settings : Value}
    → checked_settings args ≡ returned settings
    → member args "settings_policy" ≡ settings
unfolding checked_settings
checked_settings-eq-returned args {settings} h =
    let (s, given, h1) = bind-eq-returned (attribute args "settings_policy") _ h in
    let (_, _, h2) = bind-eq-returned (check_type s "object" "settings_policy") _ h1 in
    let (service, _, h3) = bind-eq-returned (attribute s "service") _ h2 in
    let (_, _, h4) = bind-eq-returned (check_type service "object" "service") _ h3 in
    elim (Bool-cases (is_nullish service)) [
      | inl missing ↦ let h' = rw missing at h4 in cc
      | inr there ↦
          let (_, _, h5) = bind-eq-returned (check_service service) _ (rw there at h4) in
          attribute-eq-returned args "settings_policy" given ∙ returned-injective h5
    ]

-- When `set_settings_policy` passes, the services load the settings of the action.
pub set_settings_policy-load :
    (args : Value) (kv : Kv) {kv' : Kv}
    → set_settings_policy args kv ≡ returned kv'
    → load_settings_from_map kv' ≡ returned (member args "settings_policy")
unfolding set_settings_policy load_settings_from_map
set_settings_policy-load args kv {kv'} h =
    let (settings, checked, h1) = bind-eq-returned (checked_settings args) _ h in
    let stored : insert "settings_policy" (some settings) kv.settings ≡ kv'.settings =
      ap (λ k. k.settings) (returned-injective h1) in
    let found =
      ap (lookup "settings_policy") (sym stored)
      ∙ lookup-insert "settings_policy" "settings_policy" (some settings) kv.settings in
    rw (found, load_settings_from_map)
      (ap returned (sym (checked_settings-eq-returned args checked)))
