-- ===== src/ServiceResult.antt =====
-- src/utils/ServiceResult.ts, src/utils/KmsError.ts: what a handler answers. An answer is a success
-- with status 200 and a body, an acceptance with status 202 and no body, or a failure with its
-- message and status. Messages are data, one constructor for each text of the source, with the
-- values it shows; headers and the log are left out. `Throws` is a computation that may throw.
use depa_kms_gcp_oidc.Prelude.{
  ℕ, ◌≡◌, ◌≢◌, refl, ◌⊎◌, inl, inr, String, Bool, true, false, Option, none, some,
}

pub data ErrorMessage : Type 0 where
  -- thrown by the language or by a callee outside the program
  type_error callee_error : ErrorMessage
  -- KeyReleasePolicy.ts
  missing_key_release_policy missing_attestation_claims empty_policy_claims : ErrorMessage
  missing_claim claim_mismatch missing_policy_value policy_value_not_number : String → ErrorMessage
  not_greater_or_equal not_greater : String → ErrorMessage
  policy_not_in_map policy_not_json : String → ErrorMessage
  -- KeyRotationPolicy.ts, Settings.ts
  rotation_policy_unparsable settings_unparsable : ErrorMessage
  -- AttestationValidation.ts, GcpAttestationValidation.ts
  missing_attestation : ErrorMessage
  missing_part malformed_part : String → ErrorMessage
  internal_error gcp_attestation_error : ErrorMessage → ErrorMessage
  -- authorization/
  jwt_no_issuer issuer_not_in_policy invalid_caller_identity member_information_undefined :
      ErrorMessage
  jwt_claim_invalid : String → ErrorMessage
  authentication_error : ErrorMessage → ErrorMessage
  no_cose_caller not_user_cose_sign1 no_cose_content : ErrorMessage
  -- endpoints/
  bad_body no_keys_in_store missing_wrapped_kid missing_wrapping_key not_pem : ErrorMessage
  wrong_fmt kid_not_found kid_expired : String → ErrorMessage
  wrapping_key_hash_mismatch missing_eat_nonce eat_nonce_mismatch : ErrorMessage
  private_key_missing primary_key_id_missing : ErrorMessage
  attestation_exception endpoint_exception : ErrorMessage → ErrorMessage
  -- actions/
  wrong_type claim_not_allowed claim_not_found operator_is_array : String → ErrorMessage
  stored_claims_unparsable table_key_missing policy_type_unsupported : String → ErrorMessage
  -- proposals.ts, cose.ts
  unexpected_auth caller_id_undefined no_append_permission : ErrorMessage
  proposal_too_old proposal_not_found no_protected_header : ErrorMessage

pub data ServiceResult {ℓ} (A : Type ℓ) : Type ℓ where
  succeeded : A → ServiceResult A
  accepted : ServiceResult A
  failed : ErrorMessage → (status : ℕ) → ServiceResult A

module _ {ℓ} {A : Type ℓ} where
  unfoldable pub status_code : ServiceResult A → ℕ
  status_code (succeeded _) = 200
  status_code accepted = 202
  status_code (failed _ c) = c

  abbrev pub success : ServiceResult A → Bool
  success (failed _ _) = false
  success _ = true

  -- `.body`, undefined unless the result is a success with a body
  unfoldable pub result_body : ServiceResult A → Option A
  result_body (succeeded a) = some a
  result_body _ = none

-- `if (r.failure) return r;` and then the rest.
abbrev pub unless_failed {ℓ κ} :
    {A : Type ℓ} {B : Type κ} → ServiceResult A → ServiceResult B → ServiceResult B
unless_failed (failed e c) rest = failed e c
unless_failed _ rest = rest

pub data Throws {ℓ} (A : Type ℓ) : Type ℓ where
  returned : A → Throws A
  thrown : ErrorMessage → Throws A

infixl 5 ◌>>=◌
abbrev pub ◌>>=◌ {ℓ κ} : {A : Type ℓ} {B : Type κ} → Throws A → (A → Throws B) → Throws B
returned a >>= k = k a
thrown e >>= k = thrown e

infixl 5 ◌>>◌
abbrev pub ◌>>◌ {ℓ} : {B : Type ℓ} → Throws (Unit {0}) → Throws B → Throws B
m >> rest = m >>= λ _. rest

-- A value, or the exception `e`.
abbrev pub or_throw {ℓ} : {A : Type ℓ} → ErrorMessage → Option A → Throws A
or_throw e none = thrown e
or_throw e (some a) = returned a

-- `try { return m } catch (exception) { return Failed(wrap(exception), c) }`
abbrev pub catching {ℓ} :
    {A : Type ℓ} → (ErrorMessage → ErrorMessage) → ℕ → Throws (ServiceResult A) → ServiceResult A
catching wrap c (returned r) = r
catching wrap c (thrown e) = failed (wrap e) c

pub bind-eq-returned {ℓ κ} :
    {A : Type ℓ} {B : Type κ} (m : Throws A) (k : A → Throws B) {b : B}
    → (m >>= k) ≡ returned b
    → (a : A) × (m ≡ returned a) × (k a ≡ returned b)
bind-eq-returned (returned a) k h = (a, refl, h)
bind-eq-returned (thrown e) k h = cc

pub Throws-cases {ℓ} :
    {A : Type ℓ} (m : Throws A)
    → ((a : A) × (m ≡ returned a)) ⊎ ((e : ErrorMessage) × (m ≡ thrown e))
Throws-cases (returned a) = inl (a, refl)
Throws-cases (thrown e) = inr (e, refl)

pub catching-eq-succeeded {ℓ} :
    {A : Type ℓ} (wrap : ErrorMessage → ErrorMessage) (c : ℕ) (m : Throws (ServiceResult A)) {v : A}
    → catching wrap c m ≡ succeeded v
    → m ≡ returned (succeeded v)
catching-eq-succeeded wrap c (returned r) h = cc h
catching-eq-succeeded wrap c (thrown e) h = cc

pub catching-ne-accepted {ℓ} :
    {A : Type ℓ} (wrap : ErrorMessage → ErrorMessage) (c : ℕ) (m : Throws (ServiceResult A))
    → m ≢ returned accepted
    → catching wrap c m ≢ accepted
catching-ne-accepted wrap c (returned r) n h = n (cc h)
catching-ne-accepted wrap c (thrown e) n h = cc

pub or_throw-eq-returned {ℓ} :
    {A : Type ℓ} (e : ErrorMessage) (o : Option A) {a : A} → or_throw e o ≡ returned a → o ≡ some a
or_throw-eq-returned e none h = cc
or_throw-eq-returned e (some a) h = cc

pub returned-injective {ℓ} : {A : Type ℓ} {a b : A} → returned a ≡ returned b → a ≡ b
returned-injective h = cc h

pub unless_failed-passed {ℓ κ} :
    {A : Type ℓ} {B : Type κ} (r : ServiceResult A) (rest : ServiceResult B) {v : B}
    → unless_failed r rest ≡ succeeded v
    → (success r ≡ true) × (rest ≡ succeeded v)
unless_failed-passed (failed e c) rest h = cc
unless_failed-passed (succeeded a) rest h = (refl, h)
unless_failed-passed accepted rest h = (refl, h)
