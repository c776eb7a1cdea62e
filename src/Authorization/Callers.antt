-- ===== src/Authorization/Callers.antt =====
-- Which callers `isAuthenticated` lets through.
use depa_kms_gcp_oidc.Prelude.{
  ℕ, ◌<◌, ◌≡◌, ◌↔◌, refl, ap, sym, ◌∙◌, ◌⊎◌, inl, inr, String, Bool, true, false, some, List, [],
  ◌∷◌, arith, ◌==◌, eq_iff, lookup, Bool-cases, Option-cases,
}
use depa_kms_gcp_oidc.Js.{Value, str, member, truthy, strict_eq}
use depa_kms_gcp_oidc.ServiceResult.{
  authentication_error, ServiceResult, succeeded, accepted, failed, Throws, returned, thrown,
  catching,
}
use depa_kms_gcp_oidc.KeyItem.{KeyItem}
use depa_kms_gcp_oidc.Repositories.{Kv}
use depa_kms_gcp_oidc.Authorization.{
  Caller, jwt, user_cert, member_cert, user_cose_sign1, other, Request, has_id, is_active_member,
  accept_if, validate_cose, validate, is_authenticated, validate_jwt, with_issuer, read_policy,
}
use depa_kms_gcp_oidc.Authorization.Jwt.{IsAcceptedToken, validate_jwt_iff}

abbrev pub IsIn : String → List String → Type 0
IsIn id [] = ⊥
IsIn id (i ∷ ids) = (i ≡ id) ⊎ IsIn id ids

has_id_iff : (id : String) (ids : List String) → (has_id id ids ≡ true) ↔ IsIn id ids
has_id_iff id [] = (λ h. cc, λ h. absurd h)
has_id_iff id (i ∷ ids) =
    let later = has_id_iff id ids in
    let here = eq_iff i id in
    elim (Bool-cases (i == id)) [
      | inl same ↦ (λ _. inl (here.0 same), λ _. rw same refl)
      | inr different ↦ (
        λ h. inr (later.0 (rw different at h)),
        λ m. rw different (elim m [ inl same ↦ cc (here.1 same) | inr among ↦ later.1 among ]),
      )
    ]

-- A member with a certificate, whose record says that it is active.
pub record IsActiveMember (kv : Kv) (id : String) : Type 0 where
  pub info : Value
  pub recorded : lookup id kv.members_info ≡ some info
  pub present : truthy info ≡ true
  pub active : member info "status" ≡ str "Active"
  pub certified : IsIn id kv.members_certs

strict_eq-text_iff : (v : Value) (s : String) → (strict_eq v (str s) ≡ true) ↔ (v ≡ str s)
unfolding strict_eq
strict_eq-text_iff (str t) s = (λ h. ap str ((eq_iff t s).0 h), λ e. (eq_iff t s).1 (cc e))
strict_eq-text_iff _ s = (λ h. cc, λ e. cc)

is_active_member_iff :
    (kv : Kv) (id : String) → (is_active_member kv id ≡ succeeded true) ↔ IsActiveMember kv id
unfolding is_active_member
is_active_member_iff kv id = (
  λ h. elim (Option-cases (lookup id kv.members_info)) [
    | inl unknown ↦ let h' = rw (unknown, is_active_member) at h in cc
    | inr (info, recorded) ↦
        let h' = rw (recorded, is_active_member) at h in
        record {
          info = info;
          recorded = recorded;
          present = ground arith;
          active = (strict_eq-text_iff (member info "status") "Active").0 (ground arith);
          certified = (has_id_iff id kv.members_certs).0 (ground arith);
        }
  ],
  λ m.
      let active = (strict_eq-text_iff (member m.info "status") "Active").1 m.active in
      let certified = (has_id_iff id kv.members_certs).1 m.certified in
      rw (m.recorded, is_active_member, m.present, active, certified) refl,
)

accept_if_iff :
    (r : ServiceResult Bool) (id : String)
    → ((v : Value) × (accept_if r id ≡ succeeded v)) ↔ (r ≡ succeeded true)
unfolding accept_if
accept_if_iff (succeeded true) id = (λ _. refl, λ _. (str id, refl))
accept_if_iff (succeeded false) id = (λ (_, h). cc, λ h. cc)
accept_if_iff accepted id = (λ (_, h). cc, λ h. cc)
accept_if_iff (failed e c) id = (λ (_, h). cc, λ h. cc)

-- Who is let through, for each kind of caller: an accepted token, a user with a certificate, an
-- active member; a signed request by any user, if it has no body or signs some content.
abbrev pub IsAuthentic : Kv → Request → Caller → Type 0
IsAuthentic kv request (jwt payload) = (v : Value) × IsAcceptedToken kv payload v
IsAuthentic kv request (user_cert id) = IsIn id kv.users_certs
IsAuthentic kv request (member_cert id) = IsActiveMember kv id
IsAuthentic kv request (user_cose_sign1 id n) = (request.body_length ≡ 0) ⊎ (0 < n)
IsAuthentic kv request (other policy) = ⊥

catching_iff :
    (m : Throws (ServiceResult Value)) (v : Value)
    → (catching authentication_error 400 m ≡ succeeded v) ↔ (m ≡ returned (succeeded v))
catching_iff (returned r) v = (λ h. cc h, λ h. cc h)
catching_iff (thrown e) v = (λ h. cc, λ h. cc)

module _ (kv : Kv) (request : Request) where
  validate_cose-content :
      (id : String) (n : ℕ) (v : Value)
      → validate_cose kv request id n ≡ succeeded v
      → (request.body_length ≡ 0) ⊎ (0 < n)
  unfolding validate_cose
  validate_cose-content id n v h = ground arith

  validate_cose-accepts :
      (id : String) (n : ℕ)
      → (request.body_length ≡ 0) ⊎ (0 < n)
      → validate_cose kv request id n ≡ succeeded (str id)
  unfolding validate_cose
  validate_cose-accepts id n m = ground arith

  validate_iff :
      (caller : Caller)
      → ((v : Value) × (validate kv request caller ≡ returned (succeeded v)))
        ↔ IsAuthentic kv request caller
  unfolding validate
  validate_iff (jwt payload) = (
    λ (v, h). (v, (validate_jwt_iff kv payload v).0 h),
    λ (v, t). (v, (validate_jwt_iff kv payload v).1 t),
  )
  validate_iff (user_cert id) =
      let spec = accept_if_iff (succeeded (has_id id kv.users_certs)) id in
      (
        λ (v, h). (has_id_iff id kv.users_certs).0 (cc (spec.0 (v, cc h))),
        λ m.
            let (v, e) = spec.1 (ap succeeded ((has_id_iff id kv.users_certs).1 m)) in
            (v, ap returned e),
      )
  validate_iff (member_cert id) =
      let spec = accept_if_iff (is_active_member kv id) id in
      (
        λ (v, h). (is_active_member_iff kv id).0 (spec.0 (v, cc h)),
        λ m. let (v, e) = spec.1 ((is_active_member_iff kv id).1 m) in (v, ap returned e),
      )
  validate_iff (user_cose_sign1 id n) = (
    λ (v, h). validate_cose-content id n v (cc h),
    λ m. (str id, ap returned (validate_cose-accepts id n m)),
  )
  validate_iff (other policy) = (λ (_, h). cc, λ h. absurd h)

is_authenticated-eq :
    (kv : Kv) (request : Request) (caller : Caller)
    → request.caller ≡ some caller
    → is_authenticated kv request ≡ catching authentication_error 400 (validate kv request caller)
unfolding is_authenticated
is_authenticated-eq kv request caller from = rw (from, is_authenticated) refl

-- A request with a caller is authenticated exactly if the caller is let through.
pub is_authenticated_iff :
    (kv : Kv) (request : Request) (caller : Caller)
    → request.caller ≡ some caller
    → ((v : Value) × (is_authenticated kv request ≡ succeeded v)) ↔ IsAuthentic kv request caller
is_authenticated_iff kv request caller from =
    let e = is_authenticated-eq kv request caller from in
    (
      λ (v, h). (validate_iff kv request caller).0 (v, (catching_iff _ v).0 (sym e ∙ h)),
      λ a. let (v, h) = (validate_iff kv request caller).1 a in (v, e ∙ (catching_iff _ v).1 h),
    )

-- A signed request gets the same answer whatever users the service knows.
pub is_authenticated-cose_any_user :
    (kv kv' : Kv) (request : Request) (id : String) (n : ℕ)
    → request.caller ≡ some (user_cose_sign1 id n)
    → is_authenticated kv request ≡ is_authenticated kv' request
unfolding validate validate_cose
is_authenticated-cose_any_user kv kv' request id n from =
    is_authenticated-eq kv request (user_cose_sign1 id n) from
    ∙ sym (is_authenticated-eq kv' request (user_cose_sign1 id n) from)

module _ (kv : Kv) (keys : List (String × KeyItem)) (request : Request) where
  validate-keys :
      (caller : Caller)
      → validate (record kv { hpke_keys = keys }) request caller ≡ validate kv request caller
  unfolding validate validate_jwt with_issuer read_policy is_active_member validate_cose
  validate-keys (jwt payload) = refl
  validate-keys (user_cert id) = refl
  validate-keys (member_cert id) = refl
  validate-keys (user_cose_sign1 id n) = refl
  validate-keys (other policy) = refl

  -- Who is let through does not depend on the stored keys.
  pub is_authenticated-keys :
      is_authenticated (record kv { hpke_keys = keys }) request ≡ is_authenticated kv request
  unfolding is_authenticated
  is_authenticated-keys = elim (Option-cases request.caller) [
    | inl none_given ↦ rw (none_given, is_authenticated) refl
    | inr (caller, from) ↦
        rw (from, is_authenticated) (ap (catching authentication_error 400) (validate-keys caller))
  ]
