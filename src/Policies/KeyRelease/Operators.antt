-- ===== src/Policies/KeyRelease/Operators.antt =====
-- What the operators `gte` and `gt` of a key release policy demand, and the loop of
-- `validateKeyReleasePolicyOperators` against it.
use depa_kms_gcp_oidc.Prelude.{
  ℕ, ◌≤◌, ◌<◌, ◌≡◌, ◌↔◌, refl, inl, inr, String, true, false, none, some, List, [], ◌∷◌, arith, All,
  Option-cases,
}
use depa_kms_gcp_oidc.Js.{
  Value, undefined, null, Number, member, is_undefined, is_nullish, of_ℕ, num_leb, num_ltb,
}
use depa_kms_gcp_oidc.ServiceResult.{succeeded}
use depa_kms_gcp_oidc.Policies.KeyRelease.{
  Operator, gte, gt, policy_number, attestation_number, compare_with, compare_numbers,
  check_operator, operators_loop,
}

-- The claim is in the attestation, the policy value is a number, and they stand in the order that
-- the operator asks for.
pub record Meets (op : Operator) (claims : Value) (entry : String × Value) : Type 0 where
  pub present : is_undefined (member claims entry.0) ≡ false
  pub bound : Number
  pub numeric : policy_number entry.1 ≡ some bound
  pub holds : compare_with op bound (attestation_number (member claims entry.0)) ≡ true

is_nullish_of_number : (v : Value) {n : Number} → policy_number v ≡ some n → is_nullish v ≡ false
unfolding is_nullish policy_number
is_nullish_of_number undefined h = cc
is_nullish_of_number null h = cc
is_nullish_of_number _ h = refl

module _ (op : Operator) (key : String) (v claims : Value) where
  check_operator_sound : check_operator op key v claims ≡ none → Meets op claims (key, v)
  unfolding check_operator compare_numbers
  check_operator_sound h = elim (Option-cases (policy_number v)) [
    | inl missing ↦ absurd (ground (arith, missing))
    | inr (bound, numeric) ↦ record {
      present = ground arith;
      bound = bound;
      numeric = numeric;
      holds = ground arith;
    }
  ]

  check_operator_complete : Meets op claims (key, v) → check_operator op key v claims ≡ none
  unfolding check_operator compare_numbers
  check_operator_complete m =
      rw (m.present, is_nullish_of_number v m.numeric, m.numeric, m.holds) refl

-- The loop succeeds exactly when every key meets its bound, and hands on the attestation.
pub operators_loop_iff :
    (op : Operator) (keys : List (String × Value)) (claims result : Value)
    → (operators_loop op keys claims ≡ succeeded result)
      ↔ ((result ≡ claims) × All (Meets op claims) keys)
unfolding operators_loop
operators_loop_iff op [] claims result = (λ h. (cc, tt), λ m. cc (m.0))
operators_loop_iff op ((key, v) ∷ rest) claims result =
    let later = operators_loop_iff op rest claims result in
    elim (Option-cases (check_operator op key v claims)) [
      | inl passed ↦ (
        λ h.
            let (same, ms) = later.0 (rw (passed, operators_loop) at h) in
            (same, (check_operator_sound op key v claims passed, ms)),
        λ m. rw (passed, operators_loop) (later.1 (m.0, m.1.1)),
      )
      | inr ((e, status), refused) ↦ (
        λ h. let h' = rw (refused, operators_loop) at h in cc,
        λ m. let passed = check_operator_complete op key v claims m.1.0 in cc,
      )
    ]

-- On whole numbers the comparisons are the orders.
pub compare_with-of_ℕ :
    (bound found : ℕ)
    → ((compare_with gte (of_ℕ bound) (of_ℕ found) ≡ true) ↔ (bound ≤ found))
      × ((compare_with gt (of_ℕ bound) (of_ℕ found) ≡ true) ↔ (bound < found))
unfolding num_leb num_ltb
compare_with-of_ℕ bound found = ground arith
