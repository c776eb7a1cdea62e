-- ===== src/Endpoints/Policies/Issuers.antt =====
-- The policies that `jwtValidationPolicy` shows.
use depa_kms_gcp_oidc.Prelude.{
  HasUniqueKeys, ◌≡◌, refl, ap, sym, ◌∙◌, inl, inr, String, false, Option, none, some, List, [],
  ◌∷◌, ◌==◌, eq_iff, All, lookup, insert, lookup-insert, Bool-cases, Option-cases, ◌↔◌,
}
use depa_kms_gcp_oidc.Js.{Value}
use depa_kms_gcp_oidc.ServiceResult.{
  ServiceResult, succeeded, accepted, failed, returned, unless_failed,
}
use depa_kms_gcp_oidc.Repositories.{Kv}
use depa_kms_gcp_oidc.Authorization.{Request, is_authenticated, read_policy}
use depa_kms_gcp_oidc.Endpoints.ServiceRequest.{service_request}
use depa_kms_gcp_oidc.Endpoints.Handler.{pure, then-eq-returned}
use depa_kms_gcp_oidc.Endpoints.Policies.{all_policies, jwt_validation_policy}

-- The policy of an issuer in the table, if it is JSON.
abbrev pub readable : Option (Option Value) → Option Value
readable none = none
readable (some policy) = policy

abbrev or_shown : Option Value → Option Value → Option Value
or_shown none shown = shown
or_shown (some policy) shown = some policy

lookup-absent :
    (key : String) (table : List (String × Option Value))
    → All (λ entry. (entry.0 == key) ≡ false) table
    → lookup key table ≡ none
unfolding lookup
lookup-absent key [] absent = refl
lookup-absent key ((name, policy) ∷ table) (other, absent) =
    rw (other, lookup) (lookup-absent key table absent)

lookup-all_policies :
    (key : String) (shown : List (String × Value)) (table : List (String × Option Value))
    → HasUniqueKeys table
    → lookup key (all_policies shown table)
      ≡ or_shown (readable (lookup key table)) (lookup key shown)
unfolding all_policies lookup
lookup-all_policies key shown [] unique = refl
lookup-all_policies key shown ((issuer, none) ∷ table) (absent, unique) =
    let later = lookup-all_policies key shown table unique in
    elim (Bool-cases (issuer == key)) [
      | inl here ↦
          let same = (eq_iff issuer key).0 here in
          rw (here, lookup)
            (later
              ∙ ap (λ o. or_shown (readable o) (lookup key shown))
                  (rw same at (lookup-absent issuer table absent)))
      | inr elsewhere ↦ rw (elsewhere, lookup) later
    ]
lookup-all_policies key shown ((issuer, some policy) ∷ table) (absent, unique) =
    let later = lookup-all_policies key (insert issuer policy shown) table unique in
    let assigned = lookup-insert issuer key policy shown in
    elim (Bool-cases (issuer == key)) [
      | inl here ↦
          let same = (eq_iff issuer key).0 here in
          let none_later : lookup key table ≡ none =
            rw same at (lookup-absent issuer table absent) in
          rw (here, lookup) (later ∙ rw (none_later, assigned, here) refl)
      | inr elsewhere ↦ rw (elsewhere, lookup) (later ∙ rw (assigned, elsewhere) refl)
    ]

unless_failed-eq-succeeded :
    {A B : Type 0} (r : ServiceResult A) (a b : B)
    → unless_failed r (succeeded a) ≡ succeeded b
    → a ≡ b
unless_failed-eq-succeeded (failed e c) a b h = cc
unless_failed-eq-succeeded (succeeded v) a b h = cc h
unless_failed-eq-succeeded accepted a b h = cc h

read_policy_iff :
    (kv : Kv) (issuer : String) (policy : Value)
    → (read_policy kv issuer ≡ returned (some policy))
      ↔ (or_shown (readable (lookup issuer kv.jwt_validation)) none ≡ some policy)
unfolding read_policy
read_policy_iff kv issuer policy = elim (Option-cases (lookup issuer kv.jwt_validation)) [
  | inl missing ↦ rw (missing, read_policy) (λ h. cc, λ h. cc)
  | inr (none, garbled) ↦ rw (garbled, read_policy) (λ h. cc, λ h. cc)
  | inr (some p, stored) ↦ rw (stored, read_policy) (λ h. cc h, λ h. cc h)
]

-- If no issuer stands twice in the table and `jwtValidationPolicy` succeeds, it shows as the policy of
-- an issuer exactly the one that the validator of tokens reads.
pub jwt_validation_policy_sound :
    (kv : Kv) (request : Request) (shown : List (String × Value)) (issuer : String) (policy : Value)
    → HasUniqueKeys kv.jwt_validation
    → jwt_validation_policy kv request ≡ pure shown
    → (read_policy kv issuer ≡ returned (some policy)) ↔ (lookup issuer shown ≡ some policy)
unfolding jwt_validation_policy lookup
jwt_validation_policy_sound kv request shown issuer policy unique h =
    let (_, _, rest) = then-eq-returned (service_request kv request) _ h in
    let same = unless_failed-eq-succeeded (is_authenticated kv request) _ shown rest in
    let found : lookup issuer shown ≡ or_shown (readable (lookup issuer kv.jwt_validation)) none =
      ap (lookup issuer) (sym same) ∙ lookup-all_policies issuer [] kv.jwt_validation unique in
    let spec = read_policy_iff kv issuer policy in
    (λ r. found ∙ spec.0 r, λ l. spec.1 (sym found ∙ l))
