-- ===== src/Authorization/Jwt.antt =====
-- Which tokens `JwtValidator` accepts.
use depa_kms_gcp_oidc.Prelude.{
  ◌≡◌, ◌↔◌, refl, ◌⊎◌, inl, inr, String, true, false, none, some, List, [], ◌∷◌, arith, ◌==◌,
  eq_iff, All, lookup, Bool-cases, Option-cases,
}
use depa_kms_gcp_oidc.Js.{
  Value, undefined, null, bool, num, str, arr, obj, num_eqb, member, truthy, strict_eq, as_array,
  elems, includes, entries,
}
use depa_kms_gcp_oidc.ServiceResult.{ServiceResult, succeeded, Throws, returned, ◌>>=◌}
use depa_kms_gcp_oidc.Repositories.{Kv}
use depa_kms_gcp_oidc.Authorization.{
  complies, jwt_loop, read_policy, issuer_name, check_policy, with_issuer, validate_jwt,
}

-- Two JSON values are the same text, number or Boolean, both null or both undefined.
abbrev pub Identical : Value → Value → Type 0
Identical undefined undefined = Unit
Identical null null = Unit
Identical (bool a) (bool b) = a ≡ b
Identical (num a) (num b) = num_eqb a b ≡ true
Identical (str a) (str b) = a ≡ b
Identical _ _ = ⊥

strict_eq_iff : (a b : Value) → (strict_eq a b ≡ true) ↔ Identical a b
unfolding strict_eq
strict_eq_iff undefined undefined = (λ _. tt, λ _. refl)
strict_eq_iff null null = (λ _. tt, λ _. refl)
strict_eq_iff (bool a) (bool b) = ground arith
strict_eq_iff (num a) (num b) = (λ h. h, λ h. h)
strict_eq_iff (str a) (str b) = eq_iff a b
strict_eq_iff _ _ = (λ h. cc, λ h. absurd h)

-- The list holds the value.
abbrev pub IsIncluded : List Value → Value → Type 0
IsIncluded [] found = ⊥
IsIncluded (v ∷ vs) found = Identical v found ⊎ IsIncluded vs found

includes_iff : (vs : List Value) (found : Value) → (includes vs found ≡ true) ↔ IsIncluded vs found
unfolding includes
includes_iff [] found = (λ h. cc, λ h. absurd h)
includes_iff (v ∷ vs) found =
    let here = strict_eq_iff v found in
    let later = includes_iff vs found in
    elim (Bool-cases (strict_eq v found)) [
      | inl same ↦ (λ h. inl (here.0 same), λ m. rw same refl)
      | inr other ↦ (
        λ h. inr (later.0 (rw other at h)),
        λ m. rw other (elim m [ inl same ↦ cc (here.1 same) | inr among ↦ later.1 among ]),
      )
    ]

-- The claim has the value that the policy names, or one of the values that it lists.
abbrev pub Complies : Value → Value → Type 0
Complies (arr values) found = IsIncluded (elems values) found
Complies wanted found = Identical found wanted

complies_iff : (wanted found : Value) → (complies wanted found ≡ true) ↔ Complies wanted found
unfolding complies as_array
complies_iff (arr values) found = includes_iff (elems values) found
complies_iff undefined found = strict_eq_iff found undefined
complies_iff null found = strict_eq_iff found null
complies_iff (bool b) found = strict_eq_iff found (bool b)
complies_iff (num n) found = strict_eq_iff found (num n)
complies_iff (str s) found = strict_eq_iff found (str s)
complies_iff (obj fs) found = strict_eq_iff found (obj fs)

-- Every claim that the policy names is in the token and complies.
abbrev pub CompliesAll : List (String × Value) → Value → Type 0
CompliesAll keys payload = All (λ entry. Complies entry.1 (member payload entry.0)) keys

jwt_loop_iff :
    (keys : List (String × Value)) (payload result : Value)
    → (jwt_loop keys payload ≡ succeeded result)
      ↔ ((result ≡ member payload "oid") × CompliesAll keys payload)
unfolding jwt_loop
jwt_loop_iff [] payload result = (λ h. (cc, tt), λ m. cc (m.0))
jwt_loop_iff ((key, wanted) ∷ rest) payload result =
    let later = jwt_loop_iff rest payload result in
    let here = complies_iff wanted (member payload key) in
    elim (Bool-cases (complies wanted (member payload key))) [
      | inl passed ↦ rw passed (
        λ h. let (same, ms) = later.0 h in (same, (here.0 passed, ms)),
        λ m. later.1 (m.0, m.1.1),
      )
      | inr refused ↦ rw refused (λ h. cc, λ m. cc (here.1 m.1.0))
    ]

-- The token names an issuer that has a policy, and complies with that policy; the identity is the
-- token's `oid`.
pub record IsAcceptedToken (kv : Kv) (payload identity : Value) : Type 0 where
  pub issuer : String
  pub named : member payload "iss" ≡ str issuer
  pub nonempty : (issuer == "") ≡ false
  pub policy : Value
  pub has_policy : lookup issuer kv.jwt_validation ≡ some (some policy)
  pub keys : List (String × Value)
  pub listed : entries policy ≡ some keys
  pub complied : CompliesAll keys payload
  pub identified : identity ≡ member payload "oid"

module _ (kv : Kv) (payload identity : Value) where
  -- Behind the check of the issuer.
  abbrev checked : String → Throws (ServiceResult Value)
  checked issuer = read_policy kv issuer >>= check_policy payload

  checked_sound :
      (issuer : String)
      → member payload "iss" ≡ str issuer
      → (issuer == "") ≡ false
      → checked issuer ≡ returned (succeeded identity)
      → IsAcceptedToken kv payload identity
  unfolding read_policy check_policy
  checked_sound issuer named nonempty h = elim (Option-cases (lookup issuer kv.jwt_validation)) [
    | inl missing ↦ let h' = rw (missing, read_policy) at h in cc
    | inr (none, unreadable) ↦ let h' = rw (unreadable, read_policy) at h in cc
    | inr (some policy, has_policy) ↦ elim (Option-cases (entries policy)) [
      | inl not_listed ↦ let h' = rw (has_policy, read_policy, not_listed) at h in cc
      | inr (keys, listed) ↦
          let h' = rw (has_policy, read_policy, listed) at h in
          let (same, complied) = (jwt_loop_iff keys payload identity).0 (cc h') in
          record {
            issuer = issuer;
            named = named;
            nonempty = nonempty;
            policy = policy;
            has_policy = has_policy;
            keys = keys;
            listed = listed;
            complied = complied;
            identified = same;
          }
    ]
  ]

  sound_at :
      (iss : Value)
      → member payload "iss" ≡ iss
      → with_issuer kv payload iss ≡ returned (succeeded identity)
      → IsAcceptedToken kv payload identity
  unfolding with_issuer truthy issuer_name
  sound_at (str issuer) named h = elim (Bool-cases (issuer == "")) [
    | inr nonempty ↦ checked_sound issuer named nonempty (rw (nonempty, truthy) at h)
    | inl empty ↦ let h' = rw (empty, truthy) at h in cc
  ]
  sound_at undefined named h = cc
  sound_at null named h = cc
  sound_at (bool b) named h = absurd (ground arith)
  sound_at (num n) named h = absurd (ground arith)
  sound_at (arr vs) named h = cc
  sound_at (obj fs) named h = cc

  complete :
      IsAcceptedToken kv payload identity → validate_jwt kv payload ≡ returned (succeeded identity)
  unfolding validate_jwt with_issuer truthy issuer_name read_policy check_policy
  complete m =
      let passed = (jwt_loop_iff m.keys payload identity).1 (m.identified, m.complied) in
      rw (m.named, m.nonempty, truthy, m.has_policy, read_policy, m.listed, passed) refl

-- `JwtValidator.validate` succeeds exactly on the tokens that are accepted.
pub validate_jwt_iff :
    (kv : Kv) (payload identity : Value)
    → (validate_jwt kv payload ≡ returned (succeeded identity))
      ↔ IsAcceptedToken kv payload identity
unfolding validate_jwt
validate_jwt_iff kv payload identity =
    (sound_at kv payload identity (member payload "iss") refl, complete kv payload identity)
