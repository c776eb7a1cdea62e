-- ===== src/Policies/KeyRelease/Claims.antt =====
-- What the claims of a key release policy accept, as a relation between the policy and the
-- attestation, and the loop of `validateKeyReleasePolicyClaims` against it.
use depa_kms_gcp_oidc.Prelude.{
  ◌≡◌, refl, ap, ◌∙◌, String, ◌⊎◌, inl, inr, true, false, none, some, List, [], ◌∷◌, arith, ◌==◌,
  eq_iff, All, Bool-cases, if◌then◌else◌,
}
use depa_kms_gcp_oidc.Js.{Value, undefined, member, is_undefined, as_array, to_string}
use depa_kms_gcp_oidc.ServiceResult.{
  type_error, succeeded, returned, bind-eq-returned, Throws-cases, or_throw-eq-returned, or_throw,
}
use depa_kms_gcp_oidc.Policies.KeyRelease.{matching, is_empty, check_claim, claims_loop}

-- Some value of the list prints as `t`.
abbrev pub IsAmong : String → List Value → Type 0
IsAmong t [] = ⊥
IsAmong t (p ∷ ps) = (to_string p ≡ some t) ⊎ IsAmong t ps

-- Every value of the list can be printed: it is neither null nor undefined.
abbrev pub HasTexts : List Value → Type 0
HasTexts ps = All (λ p. (s : String) × (to_string p ≡ some s)) ps

-- The claim is in the attestation, and its text is that of one of the values of the policy.
pub record Admits (claims : Value) (entry : String × Value) : Type 0 where
  pub wanted : List Value
  pub listed : as_array entry.1 ≡ some wanted
  pub text : String
  pub printed : to_string (member claims entry.0) ≡ some text
  pub among : IsAmong text wanted

-- An entry that a policy is meant to have: a list of printable values.
abbrev pub IsListed : String × Value → Type 0
IsListed entry = (ps : List Value) × (as_array entry.1 ≡ some ps) × HasTexts ps

matching_sound :
    (a : Value) (ps ms : List Value)
    → matching a ps ≡ returned ms
    → is_empty ms ≡ false
    → (t : String) × (to_string a ≡ some t) × IsAmong t ps
unfolding matching
matching_sound a [] ms h k = let e : is_empty ms ≡ true = ground arith in cc
matching_sound a (p ∷ ps) ms h k =
    let (wanted, hw, h₁) = bind-eq-returned _ _ h in
    let (found, hf, h₂) = bind-eq-returned _ _ h₁ in
    let (rest, hr, h₃) = bind-eq-returned _ _ h₂ in
    let ep = or_throw-eq-returned type_error (to_string p) hw in
    let ea = or_throw-eq-returned type_error (to_string a) hf in
    elim (Bool-cases (wanted == found)) [
      | inl same ↦ (found, ea, inl (ep ∙ ap some ((eq_iff wanted found).0 same)))
      | inr other ↦
          let (t, et, among) = matching_sound a ps rest hr (ground arith) in (t, et, inr among)
    ]

matching_complete :
    (a : Value) (t : String) (ps : List Value)
    → to_string a ≡ some t
    → HasTexts ps
    → (ms : List Value) × (matching a ps ≡ returned ms) × (IsAmong t ps → is_empty ms ≡ false)
unfolding matching
matching_complete a t [] ea h = ([], refl, λ among. absurd among)
matching_complete a t (p ∷ ps) ea ((s, es), h) =
    let (ms, em, later) = matching_complete a t ps ea h in
    (if s == t then p ∷ ms else ms, ground (arith), λ among. ground (arith, eq_iff s t, later))

check_claim_sound :
    (key : String) (v claims : Value)
    → check_claim key v claims ≡ returned none
    → Admits claims (key, v)
unfolding check_claim
check_claim_sound key v claims h = elim (Bool-cases (is_undefined (member claims key))) [
  | inl absent ↦ let h' = rw absent at h in cc
  | inr present ↦
      let h' = rw present at h in
      let (wanted, hw, h₁) = bind-eq-returned (or_throw type_error (as_array v)) _ h' in
      let (matches, hm, h₂) = bind-eq-returned (matching (member claims key) wanted) _ h₁ in
      let (t, et, among) = matching_sound (member claims key) wanted matches hm (ground arith) in
      record {
        wanted = wanted;
        listed = or_throw-eq-returned type_error (as_array v) hw;
        text = t;
        printed = et;
        among = among;
      }
]

is_undefined_of_printed : (v : Value) {t : String} → to_string v ≡ some t → is_undefined v ≡ false
unfolding is_undefined to_string
is_undefined_of_printed undefined h = cc
is_undefined_of_printed _ h = refl

check_claim_complete :
    (key : String) (v claims : Value)
    → IsListed (key, v)
    → Admits claims (key, v)
    → check_claim key v claims ≡ returned none
unfolding check_claim
check_claim_complete key v claims (ps, listed, texts) a =
    let same : ps ≡ a.wanted = cc (listed, a.listed) in
    let (ms, em, hit) = matching_complete (member claims key) a.text ps a.printed texts in
    let some_left = hit (rw same a.among) in
    rw (is_undefined_of_printed (member claims key) a.printed, listed, em, some_left) refl

-- The loop lets an attestation through only if the policy admits it at every key.
pub claims_loop_sound :
    (keys : List (String × Value)) (claims result : Value)
    → claims_loop keys claims ≡ returned (succeeded result)
    → (result ≡ claims) × All (Admits claims) keys
unfolding claims_loop
claims_loop_sound [] claims result h = (cc, tt)
claims_loop_sound ((key, v) ∷ rest) claims result h =
    elim (Throws-cases (check_claim key v claims)) [
      | inl (none, passed) ↦
          let (same, later) =
            claims_loop_sound rest claims result (rw (passed, claims_loop) at h) in
          (same, (check_claim_sound key v claims passed, later))
      | inl (some e, refused) ↦ let h' = rw (refused, claims_loop) at h in cc
      | inr (e, raised) ↦ let h' = rw (raised, claims_loop) at h in cc
    ]

pub claims_loop_complete :
    (keys : List (String × Value)) (claims : Value)
    → All IsListed keys
    → All (Admits claims) keys
    → claims_loop keys claims ≡ returned (succeeded claims)
unfolding claims_loop
claims_loop_complete [] claims _ _ = refl
claims_loop_complete ((key, v) ∷ rest) claims (l, ls) (a, as_) =
    rw (check_claim_complete key v claims l a) (claims_loop_complete rest claims ls as_)
