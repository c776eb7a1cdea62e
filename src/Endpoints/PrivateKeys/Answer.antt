-- ===== src/Endpoints/PrivateKeys/Answer.antt =====
-- When `unwrapKey` does give out a key.
use mathlib.Core.Path.{subst}
use depa_kms_gcp_oidc.Prelude.{
  ℕ, ◌≡◌, refl, sym, ap, ◌∙◌, inl, inr, String, Bool, true, false, some, List, ◌==◌, eq_iff,
  Bool-cases,
}
use depa_kms_gcp_oidc.Js.{Value, str, member, truthy, is_undefined, to_string, codes}
use depa_kms_gcp_oidc.Tooling.{Bytes, is_pem_public_key}
use depa_kms_gcp_oidc.Ccf.{Ccf}
use depa_kms_gcp_oidc.Ccf
use depa_kms_gcp_oidc.KeyItem.{KeyItem, without_private, without_receipt}
use depa_kms_gcp_oidc.Policies.KeyRotation.{PolicyMap, is_expired}
use depa_kms_gcp_oidc.Endpoints.KeyWrapper.{wrap_key_jwt}
use depa_kms_gcp_oidc.ServiceResult.{
  ServiceResult, succeeded, accepted, failed, success, result_body, returned,
}
use depa_kms_gcp_oidc.Repositories.{Kv, get_key, receipt}
use depa_kms_gcp_oidc.Authorization.{Request, is_authenticated}
use depa_kms_gcp_oidc.Endpoints.Handler.{pure, passes}
use depa_kms_gcp_oidc.Endpoints.ServiceRequest.{Format, jwk}
use depa_kms_gcp_oidc.Endpoints.PrivateKeys.{
  or_empty, named_fmt, text_of, pem_key, request_has_wrapping_key, unwrap_payload, unwrap_stored,
  unwrap_key, UnwrapResponse,
}
use depa_kms_gcp_oidc.Endpoints.PrivateKeys.Release.{IsBound, IsUnwrapped}

pub passes_of_success :
    (r : ServiceResult Value) → success r ≡ true → (s : ServiceResult Value) × (passes r ≡ pure s)
passes_of_success (succeeded v) h = (succeeded v, refl)
passes_of_success accepted h = (accepted, refl)
passes_of_success (failed e c) h = cc

pub pem-truthy : (s : String) → is_pem_public_key (codes s) ≡ true → truthy (str s) ≡ true
unfolding truthy is_pem_public_key
pem-truthy s pem = elim (Bool-cases (s == "")) [
  | inr other ↦ rw (other, truthy) refl
  | inl empty ↦
      let pem' = subst (λ t. is_pem_public_key (codes t) ≡ true) ((eq_iff s "").0 empty) pem in cc
]

module _ (ccf : Ccf) (now : ℕ) (kv : Kv) where
  request_has_wrapping_key_complete :
      (v : Value) (wrapping_key : String)
      → v ≡ str wrapping_key
      → is_pem_public_key (codes wrapping_key) ≡ true
      → request_has_wrapping_key v ≡ pure (codes wrapping_key)
  unfolding request_has_wrapping_key pem_key to_string text_of
  request_has_wrapping_key_complete v wrapping_key given pem =
      rw (given, pem-truthy wrapping_key pem, pem) refl

  unwrap_stored_complete :
      (fmt : Format) (wrapping_key : List ℕ) (v : Value) (kid : String) (response : UnwrapResponse)
      → v ≡ str kid
      → IsUnwrapped ccf now kv fmt wrapping_key kid response
      → unwrap_stored ccf now kv fmt wrapping_key v ≡ pure response
  unfolding unwrap_stored text_of
  unwrap_stored_complete fmt wrapping_key v kid response given u =
      rw (given, u.stored, u.valid, ← u.receipted, u.wrapped) refl

  -- What is left to do for a bound request.
  pub unwrap_key-of_bound :
      (request : Request) (wrapping_key kid : String) (bound : IsBound ccf kv request wrapping_key)
      → member bound.body "wrappedKid" ≡ str kid
      → unwrap_key ccf now kv request
        ≡ unwrap_stored ccf now kv bound.fmt (codes wrapping_key) (str kid)
  unfolding unwrap_key named_fmt is_undefined result_body text_of
  unwrap_key-of_bound request wrapping_key kid b named =
      let (s, passed) = passes_of_success (is_authenticated kv request) b.authenticated in
      rw
        (
          b.constructed,
          b.given,
          passed,
          named,
          request_has_wrapping_key_complete (member b.body "wrappingKey") wrapping_key b.asked
              b.pem,
          b.format,
          b.attested,
          b.reported,
          b.bound,
        )
        refl

  -- A request of an attested client to whose wrapping key its report is bound, and that names a stored
  -- key which has not expired, is given that key under its wrapping key, if the wrapping succeeds.
  pub unwrap_key_complete :
      (request : Request) (wrapping_key kid : String) (response : UnwrapResponse)
      (bound : IsBound ccf kv request wrapping_key)
      → member bound.body "wrappedKid" ≡ str kid
      → IsUnwrapped ccf now kv bound.fmt (codes wrapping_key) kid response
      → unwrap_key ccf now kv request ≡ pure response
  unwrap_key_complete request wrapping_key kid response b named u =
      unwrap_key-of_bound request wrapping_key kid b named
      ∙ unwrap_stored_complete b.fmt (codes wrapping_key) (str kid) kid response refl u

is_expired-without_private :
    (policy : PolicyMap) (now : ℕ) (item : KeyItem)
    → is_expired policy now (without_private item) ≡ is_expired policy now item
unfolding is_expired
is_expired-without_private policy now item = refl

-- The answer is the private key that belongs to the public one, under the wrapping key.
pub record IsServed (ccf : Ccf) (now : ℕ) (kv : Kv) (request : Request) (wrapping_key : List ℕ)
    (public : KeyItem) : Type 0 where
  pub item : KeyItem
  pub private : String
  pub sealed : Bytes
  pub pair : public ≡ without_private item
  pub has_private : item.d ≡ some private
  pub wrapped : ccf.wrap_key (Ccf.jwk (without_receipt item)) wrapping_key ≡ some sealed
  pub served :
      unwrap_key ccf now kv request
      ≡ pure (record {
        wrapped = ccf.base64_encode sealed;
        receipt = or_empty (receipt ccf public.kid);
      })

module _ (ccf : Ccf) (now : ℕ) (kv : Kv) (request : Request) (wrapping_key : String)
    (bound : IsBound ccf kv request wrapping_key) (format : bound.fmt ≡ jwk) where
  pub unwrap_key-IsServed :
      (public item : KeyItem) (private : String) (sealed : Bytes) {deprecated : Bool}
      → public ≡ without_private item
      → item.d ≡ some private
      → get_key public.kid kv ≡ some item
      → member bound.body "wrappedKid" ≡ str public.kid
      → is_expired kv.key_rotation now public ≡ returned (false, deprecated)
      → ccf.wrap_key (Ccf.jwk (without_receipt item)) (codes wrapping_key) ≡ some sealed
      → IsServed ccf now kv request (codes wrapping_key) public
  unfolding unwrap_payload wrap_key_jwt
  unwrap_key-IsServed public item private sealed {deprecated} pair has stored named valid wrapped =
      let response : UnwrapResponse = record {
        wrapped = ccf.base64_encode sealed;
        receipt = or_empty (receipt ccf public.kid);
      } in
      let unwrapped : IsUnwrapped ccf now kv bound.fmt (codes wrapping_key) public.kid response =
        record {
          item = item;
          stored = stored;
          deprecated = deprecated;
          valid =
              sym (is_expired-without_private kv.key_rotation now item)
              ∙ ap (is_expired kv.key_rotation now) (sym pair)
              ∙ valid;
          receipted = refl;
          wrapped = rw (format, wrapped) refl;
        } in
      record {
        item = item;
        private = private;
        sealed = sealed;
        pair = pair;
        has_private = has;
        wrapped = wrapped;
        served =
            unwrap_key_complete ccf now kv request wrapping_key public.kid response bound named
              unwrapped;
      }
