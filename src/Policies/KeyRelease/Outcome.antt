-- ===== src/Policies/KeyRelease/Outcome.antt =====
-- The outcomes of `validateKeyReleasePolicy`.
use depa_kms_gcp_oidc.Prelude.{
  ◌≢◌, refl, if◌then◌else◌, inl, inr, String, List, [], ◌∷◌, arith, Bool-cases, Option-cases,
}
use depa_kms_gcp_oidc.Js.{Value, entries}
use depa_kms_gcp_oidc.ServiceResult.{
  ServiceResult, succeeded, accepted, failed, returned, success, bind-eq-returned,
}
use depa_kms_gcp_oidc.Policies.KeyRelease.{
  KeyReleasePolicy, Operator, gte, gt, validate_claims, check_operator, operators_loop,
  validate_operators, apply_operator, has_keys, validate_key_release_policy,
}
use depa_kms_gcp_oidc.Policies.KeyRelease.Verdict.{claims_loop-ne-accepted}

operators_loop-ne-accepted :
    (op : Operator) (keys : List (String × Value)) (claims : Value)
    → operators_loop op keys claims ≢ accepted
unfolding operators_loop
operators_loop-ne-accepted op [] claims h = cc
operators_loop-ne-accepted op ((key, v) ∷ rest) claims h =
    elim (Option-cases (check_operator op key v claims)) [
      | inl passed ↦ operators_loop-ne-accepted op rest claims (rw (passed, operators_loop) at h)
      | inr ((e, status), refused) ↦ let h' = rw (refused, operators_loop) at h in cc
    ]

apply_operator-ne-accepted :
    (op : Operator) (bounds claims : Value) (result : ServiceResult Value)
    → result ≢ accepted
    → apply_operator op bounds claims result ≢ accepted
unfolding apply_operator validate_operators
apply_operator-ne-accepted op bounds claims result n = elim (Option-cases (entries bounds)) [
  | inl none_listed ↦ ground (arith, none_listed)
  | inr (keys, listed) ↦ ground (arith, listed, operators_loop-ne-accepted op keys claims)
]

with_operators-ne-accepted :
    (p : KeyReleasePolicy) (claims : Value) (result : ServiceResult Value)
    → result ≢ accepted
    → (if success result
        then apply_operator gt p.gt claims (apply_operator gte p.gte claims result)
        else result)
      ≢ accepted
with_operators-ne-accepted p claims (succeeded v) n =
    apply_operator-ne-accepted gt p.gt claims _ (apply_operator-ne-accepted gte p.gte claims _ n)
with_operators-ne-accepted p claims accepted n = absurd (n refl)
with_operators-ne-accepted p claims (failed e c) n = n

validate_claims-ne-accepted :
    (policy_claims claims : Value) → validate_claims policy_claims claims ≢ returned accepted
unfolding validate_claims
validate_claims-ne-accepted policy_claims claims = elim (Option-cases (entries policy_claims)) [
  | inl none_listed ↦ ground (arith, none_listed)
  | inr (keys, listed) ↦ ground (arith, listed, claims_loop-ne-accepted keys claims)
]

-- A verdict is a success or a failure.
pub validate_key_release_policy-ne-accepted :
    (p : KeyReleasePolicy) (claims : Value)
    → validate_key_release_policy p claims ≢ returned accepted
unfolding validate_key_release_policy
validate_key_release_policy-ne-accepted p claims h = elim (Option-cases (entries p.claims)) [
  | inl none_listed ↦ let h' = rw none_listed at h in cc
  | inr (keys, listed) ↦ elim (Bool-cases (has_keys keys)) [
    | inr empty ↦ let h' = rw (listed, empty) at h in cc
    | inl nonempty ↦
        let h' = rw (listed, nonempty) at h in
        let (r, validated, e) = bind-eq-returned (validate_claims p.claims claims) _ h' in
        with_operators-ne-accepted p claims r
          (λ same. validate_claims-ne-accepted p.claims claims (rw same at validated)) (cc e)
  ]
]
