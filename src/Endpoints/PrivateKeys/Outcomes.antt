-- ===== src/Endpoints/PrivateKeys/Outcomes.antt =====
-- The answers of `unwrapKey` to an attested client.
use mathlib.Core.Path.{subst}
use depa_kms_gcp_oidc.Prelude.{
  ℕ, ◌≡◌, refl, sym, inl, inr, String, Bool, true, false, none, some, List, Option-cases,
}
use depa_kms_gcp_oidc.Js.{str, member, codes}
use depa_kms_gcp_oidc.KeyItem.{KeyItem}
use depa_kms_gcp_oidc.Ccf.{Ccf}
use depa_kms_gcp_oidc.ServiceResult.{
  ErrorMessage, kid_not_found, kid_expired, endpoint_exception, failed, returned, thrown,
  Throws-cases,
}
use depa_kms_gcp_oidc.Policies.KeyRotation.{KeyRotationPolicy, is_expired}
use depa_kms_gcp_oidc.Policies.KeyRotation.Expiry.{HasPolicy, is_expired_total}
use depa_kms_gcp_oidc.Repositories.{Kv, get_key, receipt}
use depa_kms_gcp_oidc.Authorization.{Request}
use depa_kms_gcp_oidc.Endpoints.Handler.{Handler, pure}
use depa_kms_gcp_oidc.Endpoints.ServiceRequest.{Format}
use depa_kms_gcp_oidc.Endpoints.PrivateKeys.{
  or_empty, with_receipt, unwrap_payload, unwrap_stored, unwrap_key, text_of, UnwrapResponse,
}
use depa_kms_gcp_oidc.Endpoints.PrivateKeys.Release.{IsBound, IsUnwrapped}
use depa_kms_gcp_oidc.Endpoints.PrivateKeys.Answer.{unwrap_key-of_bound}

-- One of the four answers, and when it is given.
pub data IsAnswer (ccf : Ccf) (now : ℕ) (kv : Kv) (fmt : Format) (wrapping_key : List ℕ)
    (kid : String) : Handler UnwrapResponse → Type 0 where
  missing :
      get_key kid kv ≡ none
      → IsAnswer ccf now kv fmt wrapping_key kid (returned (failed (kid_not_found kid) 404))
  expired :
      (item : KeyItem) (deprecated : Bool)
      → get_key kid kv ≡ some item
      → is_expired kv.key_rotation now item ≡ returned (true, deprecated)
      → IsAnswer ccf now kv fmt wrapping_key kid (returned (failed (kid_expired kid) 410))
  not_wrapped :
      (item : KeyItem) (deprecated : Bool) (e : ErrorMessage)
      → get_key kid kv ≡ some item
      → is_expired kv.key_rotation now item ≡ returned (false, deprecated)
      → unwrap_payload ccf fmt wrapping_key (with_receipt (or_empty (receipt ccf kid)) item)
        ≡ thrown e
      → IsAnswer ccf now kv fmt wrapping_key kid (returned (failed (endpoint_exception e) 500))
  given :
      (response : UnwrapResponse)
      → IsUnwrapped ccf now kv fmt wrapping_key kid response
      → IsAnswer ccf now kv fmt wrapping_key kid (pure response)

module _ (ccf : Ccf) (now : ℕ) (kv : Kv) where
  -- The answer for a stored key and its verdict.
  verdict-IsAnswer :
      (fmt : Format) (wrapping_key : List ℕ) (kid : String) (item : KeyItem) (verdict : Bool × Bool)
      → get_key kid kv ≡ some item
      → is_expired kv.key_rotation now item ≡ returned verdict
      → IsAnswer ccf now kv fmt wrapping_key kid
          (unwrap_stored ccf now kv fmt wrapping_key (str kid))
  unfolding unwrap_stored text_of
  verdict-IsAnswer fmt wrapping_key kid item (true, deprecated) stored decided =
      rw (stored, decided) (IsAnswer.expired item deprecated stored decided)
  verdict-IsAnswer fmt wrapping_key kid item (false, deprecated) stored decided =
      let shown = or_empty (receipt ccf kid) in
      elim (Throws-cases (unwrap_payload ccf fmt wrapping_key (with_receipt shown item))) [
        | inl (text, wrapped) ↦
            rw (stored, decided, wrapped)
              (IsAnswer.given (record { wrapped = text; receipt = shown })
                (record {
                  item = item;
                  stored = stored;
                  deprecated = deprecated;
                  valid = decided;
                  receipted = refl;
                  wrapped = wrapped;
                }))
        | inr (e, refused) ↦
            rw (stored, decided, refused)
              (IsAnswer.not_wrapped item deprecated e stored decided refused)
      ]

  unwrap_stored-IsAnswer :
      (p : KeyRotationPolicy) (fmt : Format) (wrapping_key : List ℕ) (kid : String)
      → HasPolicy kv.key_rotation p
      → IsAnswer ccf now kv fmt wrapping_key kid
          (unwrap_stored ccf now kv fmt wrapping_key (str kid))
  unfolding unwrap_stored text_of
  unwrap_stored-IsAnswer p fmt wrapping_key kid has = elim (Option-cases (get_key kid kv)) [
    | inl absent ↦ rw absent (IsAnswer.missing absent)
    | inr (item, stored) ↦
        let (verdict, decided) = is_expired_total kv.key_rotation p item now has in
        verdict-IsAnswer fmt wrapping_key kid item verdict stored decided
  ]

  -- Under a readable rotation policy, and settings that let the request be built, a request of an
  -- attested client to whose wrapping key its report is bound, and that names a key, is always answered: with 404 if the key is not stored, with 410 if it
  -- has expired, with 500 if it cannot be wrapped, and else with the key.
  pub unwrap_key-IsAnswer :
      (p : KeyRotationPolicy) (request : Request) (wrapping_key kid : String)
      → HasPolicy kv.key_rotation p
      → (bound : IsBound ccf kv request wrapping_key) → member bound.body "wrappedKid" ≡ str kid
      → IsAnswer ccf now kv bound.fmt (codes wrapping_key) kid (unwrap_key ccf now kv request)
  unwrap_key-IsAnswer p request wrapping_key kid has bound named =
      subst (IsAnswer ccf now kv bound.fmt (codes wrapping_key) kid)
        (sym (unwrap_key-of_bound ccf now kv request wrapping_key kid bound named))
        (unwrap_stored-IsAnswer p bound.fmt (codes wrapping_key) kid has)
