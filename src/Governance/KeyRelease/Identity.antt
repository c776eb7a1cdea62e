-- ===== src/Governance/KeyRelease/Identity.antt =====
-- The equality of JavaScript on the values of JSON texts.
use mathlib.Core.Path.{subst}
use mathlib.Core.Bool.{beq}
use depa_kms_gcp_oidc.Prelude.{
  ◌≡◌, refl, sym, ◌∙◌, eq_iff, Bool, true, false, ◌&&◌, List, [], ◌∷◌, ◌==◌, arith, Bool-cases, inl,
  inr,
}
use depa_kms_gcp_oidc.Js.Equality.{num_eqb_trans, num_eqb_sym}
use depa_kms_gcp_oidc.Js.{Value, undefined, null, bool, num, str, arr, obj, strict_eq, includes}

bool_trans : (a b c : Bool) → beq a b ≡ true → beq b c ≡ true → beq a c ≡ true
bool_trans true true c h h' = h'
bool_trans false false c h h' = h'
bool_trans true false c h h' = cc
bool_trans false true c h h' = cc

bool_sym : (a b : Bool) → beq a b ≡ true → beq b a ≡ true
bool_sym true true h = h
bool_sym false false h = h
bool_sym true false h = cc
bool_sym false true h = cc

strict_eq_trans :
    (u v w : Value) → strict_eq u v ≡ true → strict_eq v w ≡ true → strict_eq u w ≡ true
unfolding strict_eq
strict_eq_trans undefined undefined w h h' = h'
strict_eq_trans null null w h h' = h'
strict_eq_trans (bool b₁) (bool b₂) (bool b₃) h h' = bool_trans b₁ b₂ b₃ h h'
strict_eq_trans (num n₁) (num n₂) (num n₃) h h' = num_eqb_trans n₁ n₂ n₃ h h'
strict_eq_trans (str t₁) (str t₂) (str t₃) h h' =
    subst (λ t. (t == t₃) ≡ true) (sym ((eq_iff t₁ t₂).0 h)) h'
strict_eq_trans undefined null w h h' = cc
strict_eq_trans undefined (bool b₂) w h h' = cc
strict_eq_trans undefined (num n₂) w h h' = cc
strict_eq_trans undefined (str t₂) w h h' = cc
strict_eq_trans undefined (arr vs₂) w h h' = cc
strict_eq_trans undefined (obj fs₂) w h h' = cc
strict_eq_trans null undefined w h h' = cc
strict_eq_trans null (bool b₂) w h h' = cc
strict_eq_trans null (num n₂) w h h' = cc
strict_eq_trans null (str t₂) w h h' = cc
strict_eq_trans null (arr vs₂) w h h' = cc
strict_eq_trans null (obj fs₂) w h h' = cc
strict_eq_trans (bool b₁) undefined w h h' = cc
strict_eq_trans (bool b₁) null w h h' = cc
strict_eq_trans (bool b₁) (bool b₂) undefined h h' = cc
strict_eq_trans (bool b₁) (bool b₂) null h h' = cc
strict_eq_trans (bool b₁) (bool b₂) (num n₃) h h' = cc
strict_eq_trans (bool b₁) (bool b₂) (str t₃) h h' = cc
strict_eq_trans (bool b₁) (bool b₂) (arr vs₃) h h' = cc
strict_eq_trans (bool b₁) (bool b₂) (obj fs₃) h h' = cc
strict_eq_trans (bool b₁) (num n₂) w h h' = cc
strict_eq_trans (bool b₁) (str t₂) w h h' = cc
strict_eq_trans (bool b₁) (arr vs₂) w h h' = cc
strict_eq_trans (bool b₁) (obj fs₂) w h h' = cc
strict_eq_trans (num n₁) undefined w h h' = cc
strict_eq_trans (num n₁) null w h h' = cc
strict_eq_trans (num n₁) (bool b₂) w h h' = cc
strict_eq_trans (num n₁) (num n₂) undefined h h' = cc
strict_eq_trans (num n₁) (num n₂) null h h' = cc
strict_eq_trans (num n₁) (num n₂) (bool b₃) h h' = cc
strict_eq_trans (num n₁) (num n₂) (str t₃) h h' = cc
strict_eq_trans (num n₁) (num n₂) (arr vs₃) h h' = cc
strict_eq_trans (num n₁) (num n₂) (obj fs₃) h h' = cc
strict_eq_trans (num n₁) (str t₂) w h h' = cc
strict_eq_trans (num n₁) (arr vs₂) w h h' = cc
strict_eq_trans (num n₁) (obj fs₂) w h h' = cc
strict_eq_trans (str t₁) undefined w h h' = cc
strict_eq_trans (str t₁) null w h h' = cc
strict_eq_trans (str t₁) (bool b₂) w h h' = cc
strict_eq_trans (str t₁) (num n₂) w h h' = cc
strict_eq_trans (str t₁) (str t₂) undefined h h' = cc
strict_eq_trans (str t₁) (str t₂) null h h' = cc
strict_eq_trans (str t₁) (str t₂) (bool b₃) h h' = cc
strict_eq_trans (str t₁) (str t₂) (num n₃) h h' = cc
strict_eq_trans (str t₁) (str t₂) (arr vs₃) h h' = cc
strict_eq_trans (str t₁) (str t₂) (obj fs₃) h h' = cc
strict_eq_trans (str t₁) (arr vs₂) w h h' = cc
strict_eq_trans (str t₁) (obj fs₂) w h h' = cc
strict_eq_trans (arr vs₁) v w h h' = cc
strict_eq_trans (obj fs₁) v w h h' = cc

strict_eq_sym : (v w : Value) → strict_eq v w ≡ true → strict_eq w v ≡ true
unfolding strict_eq
strict_eq_sym undefined undefined h = h
strict_eq_sym null null h = h
strict_eq_sym (bool b₁) (bool b₂) h = bool_sym b₁ b₂ h
strict_eq_sym (num n₁) (num n₂) h = num_eqb_sym n₁ n₂ h
strict_eq_sym (str t₁) (str t₂) h = let same = (eq_iff t₁ t₂).0 h in (eq_iff t₂ t₁).1 (sym same)
strict_eq_sym undefined null h = cc
strict_eq_sym undefined (bool b₂) h = cc
strict_eq_sym undefined (num n₂) h = cc
strict_eq_sym undefined (str t₂) h = cc
strict_eq_sym undefined (arr vs₂) h = cc
strict_eq_sym undefined (obj fs₂) h = cc
strict_eq_sym null undefined h = cc
strict_eq_sym null (bool b₂) h = cc
strict_eq_sym null (num n₂) h = cc
strict_eq_sym null (str t₂) h = cc
strict_eq_sym null (arr vs₂) h = cc
strict_eq_sym null (obj fs₂) h = cc
strict_eq_sym (bool b₁) undefined h = cc
strict_eq_sym (bool b₁) null h = cc
strict_eq_sym (bool b₁) (num n₂) h = cc
strict_eq_sym (bool b₁) (str t₂) h = cc
strict_eq_sym (bool b₁) (arr vs₂) h = cc
strict_eq_sym (bool b₁) (obj fs₂) h = cc
strict_eq_sym (num n₁) undefined h = cc
strict_eq_sym (num n₁) null h = cc
strict_eq_sym (num n₁) (bool b₂) h = cc
strict_eq_sym (num n₁) (str t₂) h = cc
strict_eq_sym (num n₁) (arr vs₂) h = cc
strict_eq_sym (num n₁) (obj fs₂) h = cc
strict_eq_sym (str t₁) undefined h = cc
strict_eq_sym (str t₁) null h = cc
strict_eq_sym (str t₁) (bool b₂) h = cc
strict_eq_sym (str t₁) (num n₂) h = cc
strict_eq_sym (str t₁) (arr vs₂) h = cc
strict_eq_sym (str t₁) (obj fs₂) h = cc
strict_eq_sym (arr vs₁) w h = cc
strict_eq_sym (obj fs₁) w h = cc

-- Values that are equal under `===` are so to the same values.
pub strict_eq_cong : (v i w : Value) → strict_eq v i ≡ true → strict_eq v w ≡ strict_eq i w
strict_eq_cong v i w same =
    let back = strict_eq_sym v i same in
    let forth = strict_eq_trans i v w back in
    let over = strict_eq_trans v i w same in
    elim (Bool-cases (strict_eq v w)) [
      | inl left ↦ left ∙ sym (forth left)
      | inr other ↦ elim (Bool-cases (strict_eq i w)) [
        | inl right ↦ let both = over right in cc
        | inr other_too ↦ other ∙ sym other_too
      ]
    ]

pub strict_eq_apart :
    (v i w : Value) → strict_eq v i ≡ false → (strict_eq v w && strict_eq i w) ≡ false
strict_eq_apart v i w apart = elim (Bool-cases (strict_eq v w)) [
  | inr other ↦ rw other refl
  | inl left ↦ elim (Bool-cases (strict_eq i w)) [
    | inr other ↦ rw (left, other) refl
    | inl right ↦ let both = strict_eq_trans v w i left (strict_eq_sym i w right) in cc
  ]
]

pub includes-same :
    (vs : List Value) (i w : Value)
    → includes vs i ≡ true
    → strict_eq i w ≡ true
    → includes vs w ≡ true
unfolding includes
includes-same [] i w there same = cc
includes-same (v ∷ vs) i w there same =
    let later = includes-same vs i w in
    elim (Bool-cases (strict_eq v i)) [
      | inl here ↦ let found = strict_eq_trans v i w here same in rw found refl
      | inr other ↦ let found = later (rw other at there) same in ground arith
    ]
