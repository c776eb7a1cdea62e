-- ===== src/Endpoints/PublicKeys.antt =====
-- src/endpoints/publickeyEndpoint.ts: the handlers that show public keys. `now` is the value of
-- `Date.now()`. A key that is read from the store is a copy: its deletions do not reach the store.
-- Headers are left out.
pub mod Secrecy
pub mod Choice
mod Tests
use depa_kms_gcp_oidc.Prelude.{ℕ, String, Option, none, some, List, [], ◌∷◌, ◌==◌, if◌then◌else◌}
use depa_kms_gcp_oidc.KeyItem.{KeyItem, without_private}
use depa_kms_gcp_oidc.Ccf.{Ccf}
use depa_kms_gcp_oidc.ServiceResult.{
  no_keys_in_store, kid_not_found, endpoint_exception, ServiceResult, unless_failed, catching,
  Throws, returned,
}
use depa_kms_gcp_oidc.Policies.KeyRotation.{get_latest_exposable_key}
use depa_kms_gcp_oidc.Repositories.{Kv, size, get_id, latest_item, get_key, receipt}
use depa_kms_gcp_oidc.Authorization.{Request, is_authenticated}
use depa_kms_gcp_oidc.Endpoints.Handler.{
  ◌>>>◌, Handler, ◌>>=◌, pure, or_fail, or_escape, or_accepted,
}
use depa_kms_gcp_oidc.Endpoints.ServiceRequest.{
  ServiceRequest, service_request, query_value, Format, jwk, tink,
}
use depa_kms_gcp_oidc.Endpoints.Tink.{TinkPublicKey, tink_public_keys, TinkKeySet, tink_key_set}
use depa_kms_gcp_oidc.Endpoints.PrivateKeys.{named_fmt, with_receipt}

-- The `kid` of the answer of the search, else that of the latest key.
pub kid_or_latest : Option (ℕ × String) → Kv → Option String
kid_or_latest none kv = (latest_item kv).1
kid_or_latest (some (id, kid)) kv = some kid

pub exposed_kid : ℕ → Kv → Handler String
exposed_kid now kv = do
  found ← or_escape (
      get_latest_exposable_key kv.key_rotation now (size kv) (λ id. get_id id kv.hpke_key_ids)
        (λ kid. get_key kid kv))
  or_fail (kid_or_latest found kv) no_keys_in_store 400

pub list_keys : Ccf → ℕ → Kv → Handler (List TinkPublicKey)
list_keys ccf now kv = do
  kid ← exposed_kid now kv
  item ← or_fail (get_key kid kv) (kid_not_found kid) 404
  or_escape (tink_public_keys ccf (without_private item ∷ [])) >>= pure

pub listpubkeys : Ccf → ℕ → Kv → Request → Handler (List TinkPublicKey)
listpubkeys ccf now kv request = service_request kv request >>> λ _.
    unless_failed (is_authenticated kv request)
      (catching endpoint_exception 500 (list_keys ccf now kv))

pub data PublicKey : Type 0 where
  web_key : KeyItem → PublicKey
  key_set : TinkKeySet → (receipt : String) → PublicKey

-- A `kid` in the query, if it is not the empty text, else that of the exposed key.
pub asked_kid : ServiceRequest → ℕ → Kv → Handler String
asked_kid sr now kv = elim (query_value sr "kid") [
  | none ↦ exposed_kid now kv
  | some kid ↦ if kid == "" then exposed_kid now kv else pure kid
]

pub formatted : Ccf → Format → (receipt : String) → KeyItem → Throws PublicKey
formatted ccf jwk shown item = returned (web_key item)
formatted ccf tink shown item = tink_key_set ccf (item ∷ []) >>> λ keys. key_set keys shown

pub show_key : Ccf → ℕ → Kv → ServiceRequest → Handler PublicKey
show_key ccf now kv sr = do
  kid ← asked_kid sr now kv
  fmt ← named_fmt sr
  item ← or_fail (get_key kid kv) (kid_not_found kid) 404
  shown ← or_accepted (receipt ccf kid)
  or_escape (formatted ccf fmt shown (without_private (with_receipt shown item))) >>= pure

pub pubkey : Ccf → ℕ → Kv → Request → Handler PublicKey
pubkey ccf now kv request = service_request kv request >>> λ sr.
    unless_failed (is_authenticated kv request)
      (catching endpoint_exception 500 (show_key ccf now kv sr))
