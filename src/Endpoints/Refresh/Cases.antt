-- ===== src/Endpoints/Refresh/Cases.antt =====
-- The two stores that `refresh` can leave: the one it found, and that with a new key.
use depa_kms_gcp_oidc.Prelude.{ℕ, ◌+◌, Option, none, some}
use depa_kms_gcp_oidc.Prelude.Int.{ℤ}
use depa_kms_gcp_oidc.Js.{Value}
use depa_kms_gcp_oidc.Ccf.{Ccf, EddsaKeys}
use depa_kms_gcp_oidc.ServiceResult.{
  ServiceResult, succeeded, accepted, failed, Throws, returned, thrown,
}
use depa_kms_gcp_oidc.Policies.KeyRotation.{ExpiryTimes, get_key_item_expiry_time}
use depa_kms_gcp_oidc.Repositories.{Kv, size}
use depa_kms_gcp_oidc.Authorization.{Request, is_authenticated}
use depa_kms_gcp_oidc.Endpoints.ServiceRequest.{ServiceRequest, service_request}
use depa_kms_gcp_oidc.Endpoints.Refresh.{
  new_key, store_new_key, expiry_of, add_key, refresh_for, refresh,
}

-- What holds of the store, and of it with a new key, holds after `refresh`.
module _ {κ} (P : Kv → Type κ) (ccf : Ccf) (stamped : ℕ) (kv : Kv) (now : P kv)
    (new : (keys : EddsaKeys) (expiry : Option ℤ)
      → P (
          store_new_key ccf (size kv + 1) (new_key ccf keys stamped expiry (size kv + 1)) kv)) where
  add_key-any :
      (generated : Option EddsaKeys) (expiry : Option ℤ)
      → P (add_key ccf generated stamped expiry kv).1
  unfolding add_key
  add_key-any none expiry = now
  add_key-any (some keys) expiry = new keys expiry

  refresh_for-any :
      (sr : Throws ServiceRequest) (r : ServiceResult Value) (times : Throws (Option ExpiryTimes))
      (generated : Option EddsaKeys)
      → P (refresh_for sr r times ccf generated stamped kv).1
  unfolding refresh_for
  refresh_for-any (thrown e) r times generated = now
  refresh_for-any (returned sr) (failed e c) times generated = now
  refresh_for-any (returned sr) (succeeded v) (thrown e) generated = now
  refresh_for-any (returned sr) accepted (thrown e) generated = now
  refresh_for-any (returned sr) (succeeded v) (returned times) generated =
      add_key-any generated (expiry_of times)
  refresh_for-any (returned sr) accepted (returned times) generated =
      add_key-any generated (expiry_of times)

  pub refresh-any :
      (generated : Option EddsaKeys) (created : ℕ) (request : Request)
      → P (refresh ccf generated created stamped kv request).1
  unfolding refresh
  refresh-any generated created request =
      refresh_for-any (service_request kv request) (is_authenticated kv request)
        (get_key_item_expiry_time kv.key_rotation created) generated
