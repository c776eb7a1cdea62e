-- ===== src/Endpoints/Refresh/Outcomes.antt =====
-- The outcomes of `refresh`: a new key, or a refusal.
use depa_kms_gcp_oidc.Prelude.{ℕ, ◌≡◌, refl, Bool, true, false, ◌⊎◌, inl, inr, Option, none, some}
use depa_kms_gcp_oidc.Js.{Value}
use depa_kms_gcp_oidc.KeyItem.{KeyItem}
use depa_kms_gcp_oidc.Ccf.{Ccf, EddsaKeys}
use depa_kms_gcp_oidc.ServiceResult.{
  ErrorMessage, ServiceResult, succeeded, accepted, failed, Throws, returned, thrown, success,
}
use depa_kms_gcp_oidc.Policies.KeyRotation.{ExpiryTimes, get_key_item_expiry_time}
use depa_kms_gcp_oidc.Repositories.{Kv}
use depa_kms_gcp_oidc.Repositories.Numbering.{IsNumbered}
use depa_kms_gcp_oidc.Authorization.{Request, is_authenticated}
use depa_kms_gcp_oidc.Endpoints.Handler.{Handler, pure}
use depa_kms_gcp_oidc.Endpoints.Refresh.NewKey.{IsNewKey, add_key_sound}
use depa_kms_gcp_oidc.Endpoints.ServiceRequest.{ServiceRequest, service_request}
use depa_kms_gcp_oidc.Endpoints.Refresh.{expiry_of, add_key, refresh_for, refresh}

abbrev pub is_answered : Handler KeyItem → Bool
is_answered (returned answer) = success answer
is_answered (thrown e) = false

-- What keeps `refresh` from making a key: the settings have no service, the authentication fails, the rotation policy cannot be
-- read, or CCF makes no pair.
pub data Obstacle (sr : Throws ServiceRequest) (caller : ServiceResult Value)
    (times : Throws (Option ExpiryTimes)) (generated : Option EddsaKeys) : Type 0 where
  unreadable_settings : (e : ErrorMessage) → sr ≡ thrown e → Obstacle sr caller times generated
  refused_caller : success caller ≡ false → Obstacle sr caller times generated
  unreadable_policy : (e : ErrorMessage) → times ≡ thrown e → Obstacle sr caller times generated
  no_pair : generated ≡ none → Obstacle sr caller times generated

pub record IsRefused (sr : Throws ServiceRequest) (caller : ServiceResult Value)
    (times : Throws (Option ExpiryTimes)) (generated : Option EddsaKeys) (kv : Kv)
    (outcome : Handler KeyItem × Kv) : Type 0 where
  pub obstacle : Obstacle sr caller times generated
  pub unanswered : is_answered outcome.0 ≡ false
  pub unchanged : outcome.1 ≡ kv

pub record IsRefreshed (caller : ServiceResult Value) (kv : Kv) (outcome : Handler KeyItem × Kv)
    : Type 0 where
  pub response : KeyItem
  pub authenticated : success caller ≡ true
  pub answered : outcome.0 ≡ pure response
  pub new : IsNewKey kv outcome.1 response

module _ (ccf : Ccf) (stamped : ℕ) (kv : Kv) (n : IsNumbered kv) where
  -- The `try` block, for a caller that passes.
  add_key-outcome :
      (sr : Throws ServiceRequest) (caller : ServiceResult Value) (times : Option ExpiryTimes)
      (generated : Option EddsaKeys)
      → success caller ≡ true
      → IsRefused sr caller
          (returned times)
          generated
          kv
          (add_key ccf generated stamped (expiry_of times) kv)
        ⊎ IsRefreshed caller kv (add_key ccf generated stamped (expiry_of times) kv)
  unfolding add_key
  add_key-outcome sr caller times none passed =
      inl (record { obstacle = no_pair refl; unanswered = refl; unchanged = refl })
  add_key-outcome sr caller times (some keys) passed = inr (record {
    response = _;
    authenticated = passed;
    answered = refl;
    new = add_key_sound ccf stamped kv n (some keys) (expiry_of times) _ refl;
  })

  refresh_for-outcome :
      (sr : Throws ServiceRequest) (caller : ServiceResult Value)
      (times : Throws (Option ExpiryTimes)) (generated : Option EddsaKeys)
      → IsRefused sr caller times generated kv
          (refresh_for sr caller times ccf generated stamped kv)
        ⊎ IsRefreshed caller kv (refresh_for sr caller times ccf generated stamped kv)
  unfolding refresh_for
  refresh_for-outcome (thrown e) caller times generated =
      inl (record { obstacle = unreadable_settings e refl; unanswered = refl; unchanged = refl })
  refresh_for-outcome (returned sr) (failed e c) times generated =
      inl (record { obstacle = refused_caller refl; unanswered = refl; unchanged = refl })
  refresh_for-outcome (returned sr) (succeeded v) (thrown e) generated =
      inl (record { obstacle = unreadable_policy e refl; unanswered = refl; unchanged = refl })
  refresh_for-outcome (returned sr) accepted (thrown e) generated =
      inl (record { obstacle = unreadable_policy e refl; unanswered = refl; unchanged = refl })
  refresh_for-outcome (returned sr) (succeeded v) (returned times) generated =
      add_key-outcome (returned sr) (succeeded v) times generated refl
  refresh_for-outcome (returned sr) accepted (returned times) generated =
      add_key-outcome (returned sr) accepted times generated refl

-- If exactly the numbers from 1 to the size are assigned, each to a stored key, then `refresh`
-- either fails or throws and leaves the store as it was, where the settings have no service, the
-- authentication fails, the rotation policy cannot be read or CCF makes no pair; or it has passed the authentication and answers with the new
-- latest key, under the next number, whose private part is stored and not answered and whose `id` is from
-- 10 to 99.
pub refresh-outcome :
    (ccf : Ccf) (generated : Option EddsaKeys) (created stamped : ℕ) (kv : Kv) (request : Request)
    → IsNumbered kv
    → IsRefused
        (service_request kv request)
        (is_authenticated kv request)
        (get_key_item_expiry_time kv.key_rotation created)
        generated
        kv
        (refresh ccf generated created stamped kv request)
      ⊎ IsRefreshed
          (is_authenticated kv request)
          kv
          (refresh ccf generated created stamped kv request)
unfolding refresh
refresh-outcome ccf generated created stamped kv request n =
    refresh_for-outcome ccf stamped kv n (service_request kv request) (is_authenticated kv request)
      (get_key_item_expiry_time kv.key_rotation created) generated
