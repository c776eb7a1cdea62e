-- ===== src/Endpoints/Refresh.antt =====
-- src/endpoints/refreshEndpoint.ts: a new key pair. CCF's new pair is an
-- argument, `none` where making it throws; `created` and `stamped` are the two values of `Date.now()`.
pub mod Cases
pub mod NewKey
pub mod Outcomes
pub mod Names
mod Tests
use depa_kms_gcp_oidc.Prelude.{ℕ, zero, ◌+◌, ◌%◌, String, Option, none, some, List}
use depa_kms_gcp_oidc.Prelude.Int.{ℤ, pos, negsuc}
use depa_kms_gcp_oidc.Js.{Value, concat, decimal}
use depa_kms_gcp_oidc.KeyItem.{KeyItem, without_private}
use depa_kms_gcp_oidc.Ccf.{Ccf, EddsaKeys}
use depa_kms_gcp_oidc.ServiceResult.{
  callee_error, endpoint_exception, ServiceResult, succeeded, accepted, failed, Throws, returned,
  thrown,
}
use depa_kms_gcp_oidc.Policies.KeyRotation.{ExpiryTimes, get_key_item_expiry_time}
use depa_kms_gcp_oidc.Repositories.{Kv, size, store_key_id, store_key}
use depa_kms_gcp_oidc.Authorization.{Request, is_authenticated}
use depa_kms_gcp_oidc.Endpoints.KeyGeneration.{generate_key_item}
use depa_kms_gcp_oidc.Endpoints.ServiceRequest.{ServiceRequest, service_request}
use depa_kms_gcp_oidc.Endpoints.Handler.{Handler, pure}

-- The new key, with the number `id` in its name.
abbrev pub new_key : Ccf → EddsaKeys → (stamped : ℕ) → Option ℤ → (id : ℕ) → KeyItem
new_key ccf keys stamped expiry id =
    let item = generate_key_item ccf keys stamped (id % 90 + 10) expiry in
    record item { kid = concat item.kid (concat "_" (decimal id)) }

-- The key under its number and under its name.
abbrev pub store_new_key : Ccf → ℕ → KeyItem → Kv → Kv
store_new_key ccf id item kv = store_key ccf item.kid item item.x (store_key_id id item.kid kv)

abbrev pub expiry_of : Option ExpiryTimes → Option ℤ
expiry_of none = none
expiry_of (some times) = some times.expiry_time_ms

-- The `try` block.
unfoldable pub add_key :
    Ccf → Option EddsaKeys → (stamped : ℕ) → Option ℤ → Kv → Handler KeyItem × Kv
add_key ccf none stamped expiry kv = (returned (failed (endpoint_exception callee_error) 500), kv)
add_key ccf (some keys) stamped expiry kv =
    let id = size kv + 1 in
    let item = new_key ccf keys stamped expiry id in
    (pure (without_private item), store_new_key ccf id item kv)

-- The rest of `refresh`, for the outcome of the constructor of the request, of the authentication and
-- of the expiry.
unfoldable pub refresh_for :
    Throws ServiceRequest
    → ServiceResult Value
    → Throws (Option ExpiryTimes)
    → Ccf
    → Option EddsaKeys
    → (stamped : ℕ) → Kv
    → Handler KeyItem × Kv
refresh_for (thrown e) r times ccf generated stamped kv = (thrown e, kv)
refresh_for (returned _) (failed e c) times ccf generated stamped kv = (returned (failed e c), kv)
refresh_for (returned _) _ (thrown e) ccf generated stamped kv = (thrown e, kv)
refresh_for (returned _) _ (returned times) ccf generated stamped kv =
    add_key ccf generated stamped (expiry_of times) kv

unfoldable pub refresh :
    Ccf → Option EddsaKeys → (created stamped : ℕ) → Kv → Request → Handler KeyItem × Kv
refresh ccf generated created stamped kv request =
    refresh_for (service_request kv request) (is_authenticated kv request)
      (get_key_item_expiry_time kv.key_rotation created) ccf generated stamped kv
