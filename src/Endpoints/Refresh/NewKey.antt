-- ===== src/Endpoints/Refresh/NewKey.antt =====
-- What `refresh` leaves behind.
use depa_kms_gcp_oidc.Prelude.{ℕ, ◌+◌, ◌%◌, ◌≤◌, ◌≡◌, refl, String, true, Option, none, some, arith}
use mathlib.Core.Path.{subst}
use depa_kms_gcp_oidc.Prelude.Int.{ℤ}
use depa_kms_gcp_oidc.Js.{Value}
use depa_kms_gcp_oidc.KeyItem.{KeyItem, without_private}
use depa_kms_gcp_oidc.Ccf.{Ccf, EddsaKeys}
use depa_kms_gcp_oidc.ServiceResult.{
  ServiceResult, succeeded, accepted, failed, Throws, returned, thrown, success,
}
use depa_kms_gcp_oidc.Policies.KeyRotation.{ExpiryTimes, get_key_item_expiry_time}
use depa_kms_gcp_oidc.Repositories.{Kv, size, latest_item, get_key}
use depa_kms_gcp_oidc.Repositories.Numbering.{
  IsNumbered, stored-IsNumbered, latest_item-stored, get_key-stored_new,
}
use depa_kms_gcp_oidc.Authorization.{Request, is_authenticated}
use depa_kms_gcp_oidc.Endpoints.Handler.{pure, pure-injective}
use depa_kms_gcp_oidc.Endpoints.Refresh.Cases.{refresh-any}
use depa_kms_gcp_oidc.Endpoints.ServiceRequest.{ServiceRequest, service_request}
use depa_kms_gcp_oidc.Endpoints.Refresh.{
  new_key, store_new_key, expiry_of, add_key, refresh_for, refresh,
}

-- The answer is the new latest key of the store, without its private part, and under a number of two
-- digits.
pub record IsNewKey (kv after : Kv) (response : KeyItem) : Type 0 where
  pub item : KeyItem
  pub private : String
  pub id : ℕ
  pub latest : latest_item after ≡ (size kv + 1, some response.kid)
  pub stored : get_key response.kid after ≡ some item
  pub kept : item.d ≡ some private
  pub shown : response ≡ without_private item
  pub numbered : item.id ≡ some id
  pub low : 10 ≤ id
  pub high : id ≤ 99

module _ (ccf : Ccf) (stamped : ℕ) (kv : Kv) (n : IsNumbered kv) where
  pub add_key_sound :
      (generated : Option EddsaKeys) (expiry : Option ℤ) (response : KeyItem)
      → (add_key ccf generated stamped expiry kv).0 ≡ pure response
      → IsNewKey kv (add_key ccf generated stamped expiry kv).1 response
  unfolding add_key
  add_key_sound none expiry response h = cc
  add_key_sound (some keys) expiry response h =
      let id = size kv + 1 in
      let item = new_key ccf keys stamped expiry id in
      subst (IsNewKey kv (store_new_key ccf id item kv)) (pure-injective h) (record {
        item = item;
        private = keys.d;
        id = id % 90 + 10;
        latest = latest_item-stored ccf item.kid item.x item kv n;
        stored = get_key-stored_new ccf item.kid item.x item kv n;
        kept = refl;
        shown = refl;
        numbered = refl;
        low = omega arith;
        high = omega arith;
      })

  refresh_for_sound :
      (sr : Throws ServiceRequest) (r : ServiceResult Value) (times : Throws (Option ExpiryTimes))
      (generated : Option EddsaKeys) (response : KeyItem)
      → (refresh_for sr r times ccf generated stamped kv).0 ≡ pure response
      → (success r ≡ true)
        × IsNewKey kv (refresh_for sr r times ccf generated stamped kv).1 response
  unfolding refresh_for
  refresh_for_sound (thrown e) r times generated response h = cc
  refresh_for_sound (returned sr) (failed e c) times generated response h = cc
  refresh_for_sound (returned sr) (succeeded v) (thrown e) generated response h = cc
  refresh_for_sound (returned sr) accepted (thrown e) generated response h = cc
  refresh_for_sound (returned sr) (succeeded v) (returned times) generated response h =
      (refl, add_key_sound generated (expiry_of times) response h)
  refresh_for_sound (returned sr) accepted (returned times) generated response h =
      (refl, add_key_sound generated (expiry_of times) response h)

-- If exactly the numbers from 1 to the size are assigned, each to a stored key, and `refresh`
-- succeeds, then the request passes the authentication and the answer is the new latest key, under the next
-- number, whose private part is stored and not answered and whose `id` is from 10 to 99.
pub refresh_sound :
    (ccf : Ccf) (generated : Option EddsaKeys) (created stamped : ℕ) (kv : Kv) (request : Request)
    (response : KeyItem)
    → IsNumbered kv
    → (refresh ccf generated created stamped kv request).0 ≡ pure response
    → (success (is_authenticated kv request) ≡ true)
      × IsNewKey kv (refresh ccf generated created stamped kv request).1 response
unfolding refresh
refresh_sound ccf generated created stamped kv request response n =
    refresh_for_sound ccf stamped kv n (service_request kv request) (is_authenticated kv request)
      (get_key_item_expiry_time kv.key_rotation created) generated response

-- `refresh` keeps the numbering on every outcome: if exactly the numbers from 1 to the size are
-- assigned, each to a stored key, this holds afterwards too.
pub refresh-IsNumbered :
    (ccf : Ccf) (generated : Option EddsaKeys) (created stamped : ℕ) (kv : Kv) (request : Request)
    → IsNumbered kv
    → IsNumbered (refresh ccf generated created stamped kv request).1
refresh-IsNumbered ccf generated created stamped kv request n =
    refresh-any IsNumbered ccf stamped kv n
      (λ keys expiry.
        let item = new_key ccf keys stamped expiry (size kv + 1) in
        stored-IsNumbered ccf item.kid item.x item kv n)
      generated created request
