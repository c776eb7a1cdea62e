-- ===== src/Policies/KeyRelease/Verdict.antt =====
-- The verdict of `validateKeyReleasePolicy` on a whole policy.
use depa_kms_gcp_oidc.Prelude.{
  ◌≡◌, ◌≢◌, ◌↔◌, refl, sym, ◌∙◌, if◌then◌else◌, inl, inr, String, Bool, true, false, none, some,
  List, [], ◌∷◌, All, Bool-cases, Option-cases,
}
use depa_kms_gcp_oidc.Js.{Value, undefined, null, is_nullish, entries}
use depa_kms_gcp_oidc.ServiceResult.{
  ServiceResult, succeeded, accepted, failed, returned, ◌>>=◌, success, bind-eq-returned,
  Throws-cases,
}
use depa_kms_gcp_oidc.Policies.KeyRelease.{
  KeyReleasePolicy, Operator, gte, gt, check_claim, claims_loop, validate_claims,
  validate_operators, apply_operator, has_keys, validate_key_release_policy,
}
use depa_kms_gcp_oidc.Policies.KeyRelease.Claims.{
  Admits, IsListed, claims_loop_sound, claims_loop_complete,
}
use depa_kms_gcp_oidc.Policies.KeyRelease.Operators.{Meets, operators_loop_iff}

-- The bounds of an operator, met by the attestation.
pub record MeetsAll (op : Operator) (bounds claims : Value) : Type 0 where
  pub keys : List (String × Value)
  pub listed : entries bounds ≡ some keys
  pub met : All (Meets op claims) keys

entries_of_not_nullish :
    (v : Value) → is_nullish v ≡ false → (keys : List (String × Value)) × (entries v ≡ some keys)
unfolding is_nullish entries
entries_of_not_nullish undefined h = cc
entries_of_not_nullish null h = cc
entries_of_not_nullish _ h = (_, refl)

module _ (op : Operator) (bounds claims result : Value) (given : is_nullish bounds ≡ false)
    (attested : is_nullish claims ≡ false) where
  validate_operators_iff :
      (validate_operators op bounds claims ≡ succeeded result)
      ↔ ((result ≡ claims) × MeetsAll op bounds claims)
  unfolding validate_operators
  validate_operators_iff =
      let (keys, listed) = entries_of_not_nullish bounds given in
      let spec = operators_loop_iff op keys claims result in
      (
        λ h.
            let (same, met) = spec.0 (rw (given, attested, listed) at h) in
            (same, record { keys = keys; listed = listed; met = met }),
        λ m.
            let same : keys ≡ m.1.keys = cc (listed, m.1.listed) in
            rw (given, attested, listed) (spec.1 (m.0, rw same m.1.met)),
      )

-- What decides, once the claims are admitted: the bounds of `gt` if the policy has any, else those
-- of `gte` if it has any.
abbrev ByOperator : Bool → Type 0 → Type 0 → Type 0
ByOperator true absent present = absent
ByOperator false absent present = present

abbrev pub Decides : KeyReleasePolicy → Value → Type 0
Decides p claims =
    ByOperator (is_nullish p.gt) (ByOperator (is_nullish p.gte) Unit (MeetsAll gte p.gte claims))
      (MeetsAll gt p.gt claims)

-- The policy has claims, the attestation admits them all, and the deciding bounds are met.
pub record IsReleased (p : KeyReleasePolicy) (claims : Value) : Type 0 where
  pub keys : List (String × Value)
  pub listed : entries p.claims ≡ some keys
  pub nonempty : has_keys keys ≡ true
  pub attested : is_nullish claims ≡ false
  pub admitted : All (Admits claims) keys
  pub decided : Decides p claims

-- The claims of the policy are what the governance action stores: an object of lists of values that
-- can be printed.
abbrev pub HasLists : KeyReleasePolicy → Type 0
HasLists p = (keys : List (String × Value)) × (entries p.claims ≡ some keys) × All IsListed keys

apply_operators_iff :
    (p : KeyReleasePolicy) (claims result : Value)
    → is_nullish claims ≡ false
    → (apply_operator gt p.gt claims (apply_operator gte p.gte claims (succeeded claims))
        ≡ succeeded result)
      ↔ ((result ≡ claims) × Decides p claims)
unfolding apply_operator
apply_operators_iff p claims result attested = elim (Bool-cases (is_nullish p.gt)) [
  | inr given ↦ rw given (validate_operators_iff gt p.gt claims result given attested)
  | inl no_gt ↦ elim (Bool-cases (is_nullish p.gte)) [
    | inr given ↦ rw (no_gt, given) (validate_operators_iff gte p.gte claims result given attested)
    | inl no_gte ↦ rw (no_gt, no_gte) (λ h. (cc, tt), λ m. cc (m.0))
  ]
]

not_nullish_of_entries :
    (v : Value) {keys : List (String × Value)} → entries v ≡ some keys → is_nullish v ≡ false
unfolding is_nullish entries
not_nullish_of_entries undefined h = cc
not_nullish_of_entries null h = cc
not_nullish_of_entries _ h = refl

pub claims_loop-ne-accepted :
    (keys : List (String × Value)) (claims : Value) → claims_loop keys claims ≢ returned accepted
unfolding claims_loop
claims_loop-ne-accepted [] claims h = cc
claims_loop-ne-accepted ((key, v) ∷ rest) claims h =
    elim (Throws-cases (check_claim key v claims)) [
      | inl (none, passed) ↦ claims_loop-ne-accepted rest claims (rw (passed, claims_loop) at h)
      | inl (some e, refused) ↦ let h' = rw (refused, claims_loop) at h in cc
      | inr (e, raised) ↦ let h' = rw (raised, claims_loop) at h in cc
    ]

-- A verdict on an object of claims is the loop over the claims and then the operators.
module _ (p : KeyReleasePolicy) (claims : Value) {keys : List (String × Value)}
    (listed : entries p.claims ≡ some keys) (nonempty : has_keys keys ≡ true)
    (attested : is_nullish claims ≡ false) where
  with_operators : ServiceResult Value → ServiceResult Value
  with_operators result =
      if success result
      then apply_operator gt p.gt claims (apply_operator gte p.gte claims result)
      else result

  validate_key_release_policy-eq :
      validate_key_release_policy p claims
      ≡ (claims_loop keys claims >>= λ result. returned (with_operators result))
  unfolding validate_key_release_policy validate_claims with_operators
  validate_key_release_policy-eq =
      rw (listed, nonempty, not_nullish_of_entries p.claims listed, attested) refl

  IsReleased-of_loop :
      (r result : ServiceResult Value) {final : Value}
      → claims_loop keys claims ≡ returned r
      → result ≡ with_operators r
      → result ≡ succeeded final
      → (final ≡ claims) × IsReleased p claims
  unfolding with_operators
  IsReleased-of_loop (succeeded passed) result {final} looped e h =
      let (same, admitted) = claims_loop_sound keys claims passed looped in
      let (final_same, decided) =
        (apply_operators_iff p claims final attested).0 (rw same at (sym e ∙ h)) in
      (
        final_same,
        record {
          keys = keys;
          listed = listed;
          nonempty = nonempty;
          attested = attested;
          admitted = admitted;
          decided = decided;
        },
      )
  IsReleased-of_loop accepted result looped e h =
      absurd (claims_loop-ne-accepted keys claims looped)
  IsReleased-of_loop (failed message status) result looped e h = cc

-- `validateKeyReleasePolicy` succeeds only on an attestation that the policy releases, and hands that
-- attestation on.
pub validate_key_release_policy_sound :
    (p : KeyReleasePolicy) (claims result : Value)
    → validate_key_release_policy p claims ≡ returned (succeeded result)
    → (result ≡ claims) × IsReleased p claims
unfolding validate_key_release_policy validate_claims
validate_key_release_policy_sound p claims result h = elim (Option-cases (entries p.claims)) [
  | inl none_listed ↦ let h' = rw none_listed at h in cc
  | inr (keys, listed) ↦ elim (Bool-cases (has_keys keys)) [
    | inr empty ↦ let h' = rw (listed, empty) at h in cc
    | inl nonempty ↦ elim (Bool-cases (is_nullish claims)) [
      | inl missing ↦
          let h' = rw (listed, nonempty, not_nullish_of_entries p.claims listed, missing) at h in cc
      | inr attested ↦
          let e = validate_key_release_policy-eq p claims listed nonempty attested in
          let (r, looped, final) = bind-eq-returned (claims_loop keys claims) _ (sym e ∙ h) in
          IsReleased-of_loop p claims listed nonempty attested r _ looped refl (cc final)
    ]
  ]
]

-- On a policy of lists it succeeds on every attestation that the policy releases.
pub validate_key_release_policy_complete :
    (p : KeyReleasePolicy) (claims : Value)
    → HasLists p
    → IsReleased p claims
    → validate_key_release_policy p claims ≡ returned (succeeded claims)
unfolding with_operators
validate_key_release_policy_complete p claims (keys, listed, lists) m =
    let same : keys ≡ m.keys = cc (listed, m.listed) in
    let looped = claims_loop_complete keys claims lists (rw same m.admitted) in
    let e = validate_key_release_policy-eq p claims listed (rw same m.nonempty) m.attested in
    let passed = (apply_operators_iff p claims claims m.attested).1 (refl, m.decided) in
    e ∙ rw (looped, passed) refl

-- A policy with bounds for `gt` answers the same whatever its bounds for `gte` are.
pub validate_key_release_policy-gt_overrides :
    (p : KeyReleasePolicy) (claims at_least : Value)
    → is_nullish p.gt ≡ false
    → validate_key_release_policy (record p { gte = at_least }) claims
      ≡ validate_key_release_policy p claims
unfolding validate_key_release_policy apply_operator
validate_key_release_policy-gt_overrides p claims at_least given = rw given refl
