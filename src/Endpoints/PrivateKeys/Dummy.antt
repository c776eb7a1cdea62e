-- ===== src/Endpoints/PrivateKeys/Dummy.antt =====
-- `key`, which wraps under no key.
use depa_kms_gcp_oidc.Prelude.{
  ℕ, ◌≡◌, ◌≢◌, refl, ap, sym, inl, inr, String, none, replicate, length, eqb, false, List, All,
  Bool-cases,
}
use mathlib.Core.Path.{subst}
use depa_kms_gcp_oidc.Js.{str}
use depa_kms_gcp_oidc.KeyItem.{KeyItem}
use depa_kms_gcp_oidc.Ccf.{Ccf}
use depa_kms_gcp_oidc.ServiceResult.{
  callee_error, private_key_missing, bad_body, no_keys_in_store, kid_not_found, endpoint_exception,
  ServiceResult, succeeded, accepted, failed, Throws, returned, thrown, or_throw, bind-eq-returned,
  status_code,
}
use depa_kms_gcp_oidc.Repositories.{Kv, get_key}
use depa_kms_gcp_oidc.Authorization.{Request, is_authenticated}
use depa_kms_gcp_oidc.Attestation.{validate_attestation}
use depa_kms_gcp_oidc.Attestation.Outcome.{validate_attestation-ne-accepted}
use depa_kms_gcp_oidc.Endpoints.Handler.{
  or_escape, or_escape-ne-accepted, pure, or_fail, or_fail_with, passes, bind-eq-pure,
  bind-eq-accepted, pure-ne-accepted, pure-injective, or_fail-ne-accepted, or_fail_with-eq-pure,
  or_fail_with-ne-accepted, passes-ne-accepted,
}
use depa_kms_gcp_oidc.Endpoints.KeyWrapper.{
  EncryptionKey, key_material_of, tink_keyset, wrap_key_tink, wrap_key_jwt,
  create_wrapped_private_tink_key,
}
use depa_kms_gcp_oidc.Endpoints.ServiceRequest.{ServiceRequest, service_request, Format, jwk, tink}
use depa_kms_gcp_oidc.Endpoints.PrivateKeys.{
  ◌>>>◌, attested_body, provider_of, requested_kid, named_fmt, key_payload, key, key_for, Wrapped,
  text, tink_keys, KeyResponse,
}

-- Every key of the client's key data is the encrypted keyset.
abbrev pub HasKeyset : String → EncryptionKey → Type 0
HasKeyset encrypted e = All (λ d. d.key_material ≡ key_material_of encrypted) e.key_data

-- An empty text, or keysets of zeros.
pub data IsDummy (ccf : Ccf) : Wrapped → Type 0 where
  empty : IsDummy ccf (text "")
  zeros :
      (n : ℕ) (keys : List EncryptionKey)
      → All (HasKeyset (ccf.base64_encode (replicate n 0))) keys
      → IsDummy ccf (tink_keys keys)

returned-injective : {A : Type 0} {a b : A} → returned a ≡ returned b → a ≡ b
returned-injective h = cc h

keyset_of_no_key :
    (ccf : Ccf) (item : KeyItem) {s : String}
    → create_wrapped_private_tink_key ccf none item ≡ returned s
    → (n : ℕ) × (s ≡ ccf.base64_encode (replicate n 0))
unfolding create_wrapped_private_tink_key
keyset_of_no_key ccf item h =
    let (d, _, k₁) = bind-eq-returned (or_throw private_key_missing item.d) _ h in
    let (bytes, _, k₂) =
      bind-eq-returned (or_throw callee_error (ccf.base64_decode (str d))) _ k₁ in
    (length (ccf.keyset_binary (tink_keyset ccf bytes)), cc k₂)

map-eq-returned :
    {A B : Type 0} (m : Throws A) (f : A → B) {b : B}
    → (m >>> f) ≡ returned b
    → (a : A) × (m ≡ returned a) × (f a ≡ b)
map-eq-returned (returned a) f h = (a, refl, cc h)
map-eq-returned (thrown e) f h = cc

wrap_key_tink-keyset :
    (ccf : Ccf) (now : ℕ) (item : KeyItem) {keys : List EncryptionKey}
    → wrap_key_tink ccf now none item ≡ returned keys
    → (n : ℕ) × All (HasKeyset (ccf.base64_encode (replicate n 0))) keys
unfolding wrap_key_tink
wrap_key_tink-keyset ccf now item h =
    let (s, made, k) = bind-eq-returned (create_wrapped_private_tink_key ccf none item) _ h in
    let (n, zeroed) = keyset_of_no_key ccf item made in
    (
      n,
      subst (All (HasKeyset (ccf.base64_encode (replicate n 0)))) (returned-injective k)
          ((ap key_material_of zeroed, tt), tt),
    )

key_payload-IsDummy :
    (ccf : Ccf) (now : ℕ) (fmt : Format) (item : KeyItem) {w : Wrapped}
    → key_payload ccf now fmt item ≡ returned w
    → IsDummy ccf w
unfolding key_payload wrap_key_jwt
key_payload-IsDummy ccf now jwk item h = subst (IsDummy ccf) (cc h) empty
key_payload-IsDummy ccf now tink item h =
    let (keys, wrapped, shown) = map-eq-returned (wrap_key_tink ccf now none item) tink_keys h in
    let (n, zeroed) = wrap_key_tink-keyset ccf now item wrapped in
    subst (IsDummy ccf) shown (zeros n keys zeroed)

passed_status :
    {A : Type 0} (r : ServiceResult A) {s : ServiceResult A}
    → passes r ≡ pure s
    → r ≢ accepted
    → eqb (status_code s) 202 ≡ false
unfolding status_code
passed_status (succeeded a) h n = ap (λ s. eqb (status_code s) 202) (sym (pure-injective h))
passed_status accepted h n = absurd (n refl)
passed_status (failed e c) h n = cc

module _ (ccf : Ccf) (now : ℕ) (kv : Kv) (request : Request) where
  key_for-IsDummy :
      (sr : ServiceRequest) (response : KeyResponse)
      → key_for ccf now kv request sr ≡ pure response
      → IsDummy ccf response.wrapped
  unfolding key_for
  key_for-IsDummy sr response h =
      let (given, _, k₁) = bind-eq-pure (or_fail (attested_body sr) bad_body 400) _ h in
      let (caller, _, k₂) = bind-eq-pure (passes (is_authenticated kv request)) _ k₁ in
      let (kid, _, k₃) = bind-eq-pure (or_fail (requested_kid sr kv) no_keys_in_store 400) _ k₂ in
      let (fmt, _, k₄) = bind-eq-pure (named_fmt sr) _ k₃ in
      let validated = validate_attestation ccf kv given.1 (provider_of given.0) in
      let (attested, h₅, k₅) = bind-eq-pure (passes validated) _ k₄ in
      let (item, _, k₆) = bind-eq-pure (or_fail (get_key kid kv) (kid_not_found kid) 404) _ k₅ in
      elim (Bool-cases (eqb (status_code attested) 202)) [
        | inl later ↦ let h' = rw later at k₆ in cc
        | inr now_ ↦
            let payload = key_payload ccf now fmt item in
            let (wrapped, h₇, k₇) =
              bind-eq-pure (or_fail_with endpoint_exception payload) _ (rw now_ at k₆) in
            let same = ap (λ r. r.wrapped) (pure-injective k₇) in
            subst (IsDummy ccf) same
              (key_payload-IsDummy ccf now fmt item (or_fail_with-eq-pure _ _ h₇))
      ]

  -- `key` never gives out a private key: what it shows as the wrapped key is an empty text or a
  -- keyset of zeros.
  pub key-IsDummy :
      (response : KeyResponse)
      → key ccf now kv request ≡ pure response
      → IsDummy ccf response.wrapped
  unfolding key
  key-IsDummy response h =
      let (sr, _, rest) = bind-eq-pure (or_escape (service_request kv request)) _ h in
      key_for-IsDummy sr response rest

  key_for-ne-accepted : (sr : ServiceRequest) → key_for ccf now kv request sr ≢ returned accepted
  unfolding key_for named_fmt
  key_for-ne-accepted sr h =
      let (given, _, k₁) =
        bind-eq-accepted (or_fail (attested_body sr) bad_body 400) _ (or_fail-ne-accepted _ _ _)
          h in
      let (caller, _, k₂) =
        bind-eq-accepted (passes (is_authenticated kv request)) _ (passes-ne-accepted _) k₁ in
      let (kid, _, k₃) =
        bind-eq-accepted (or_fail (requested_kid sr kv) no_keys_in_store 400) _
          (or_fail-ne-accepted _ _ _) k₂ in
      let (fmt, _, k₄) = bind-eq-accepted (named_fmt sr) _ (or_fail-ne-accepted _ _ _) k₃ in
      let validated = validate_attestation ccf kv given.1 (provider_of given.0) in
      let (attested, h₅, k₅) = bind-eq-accepted (passes validated) _ (passes-ne-accepted _) k₄ in
      let (item, _, k₆) =
        bind-eq-accepted (or_fail (get_key kid kv) (kid_not_found kid) 404) _
          (or_fail-ne-accepted _ _ _) k₅ in
      let not_202 =
        passed_status _ h₅
          (validate_attestation-ne-accepted ccf kv given.1 (provider_of given.0)) in
      let payload = key_payload ccf now fmt item in
      let (wrapped, _, k₇) =
        bind-eq-accepted (or_fail_with endpoint_exception payload) _ (or_fail_with-ne-accepted _ _)
          (rw not_202 at k₆) in
      pure-ne-accepted _ k₇

  -- `key` never answers with status 202, since no validation of an attestation does.
  pub key-ne-accepted : key ccf now kv request ≢ returned accepted
  unfolding key
  key-ne-accepted h =
      let (sr, _, rest) =
        bind-eq-accepted (or_escape (service_request kv request)) _ (or_escape-ne-accepted _) h in
      key_for-ne-accepted sr rest
