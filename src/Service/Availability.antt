-- ===== src/Service/Availability.antt =====
-- A key of `refresh`, asked for with `unwrapKey` later on.
use mathlib.Core.Path.{subst}
use depa_kms_gcp_oidc.Prelude.{
  ℕ, ◌+◌, ◌≡◌, sym, ◌∙◌, ap, inl, inr, String, Bool, false, Option, some, eqb, Bool-cases,
}
use depa_kms_gcp_oidc.Js.{str, member, codes}
use depa_kms_gcp_oidc.KeyItem.{KeyItem, without_receipt}
use depa_kms_gcp_oidc.Tooling.{Bytes}
use depa_kms_gcp_oidc.Ccf.{Ccf, EddsaKeys, jwk as jwk_text}
use depa_kms_gcp_oidc.ServiceResult.{returned}
use depa_kms_gcp_oidc.Policies.KeyRotation.{is_expired}
use depa_kms_gcp_oidc.Repositories.{Kv, size, get_id, get_key, latest_item}
use depa_kms_gcp_oidc.Authorization.{Request}
use depa_kms_gcp_oidc.Endpoints.Handler.{pure}
use depa_kms_gcp_oidc.Endpoints.ServiceRequest.{jwk}
use depa_kms_gcp_oidc.Endpoints.PrivateKeys.Release.{IsBound}
use depa_kms_gcp_oidc.Endpoints.PrivateKeys.Answer.{IsServed, unwrap_key-IsServed}
use depa_kms_gcp_oidc.Endpoints.Refresh.{refresh}
use depa_kms_gcp_oidc.Endpoints.Refresh.NewKey.{refresh_sound}
use depa_kms_gcp_oidc.Endpoints.Refresh.Names.{IsNamed}
use depa_kms_gcp_oidc.Endpoints.Cose.{Cbor}
use depa_kms_gcp_oidc.Service.{Step, Reach}
use depa_kms_gcp_oidc.Service.Reachable.{IsWellFormed, Reach-IsWellFormed}
use depa_kms_gcp_oidc.Service.Keys.{Reach-KeepsKeys}

get_id-of_latest :
    (kv : Kv) {n : ℕ} {kid : String}
    → latest_item kv ≡ (n, some kid)
    → get_id n kv.hpke_key_ids ≡ some kid
unfolding latest_item
get_id-of_latest kv {n} {kid} h = elim (Bool-cases (eqb (size kv) 0)) [
  | inl empty ↦ let h' = rw (empty, latest_item) at h in cc
  | inr filled ↦
      let h' = rw (filled, latest_item) at h in
      let same : size kv ≡ n = ap (λ l. l.0) h' in
      let found : get_id (size kv) kv.hpke_key_ids ≡ some kid = ap (λ l. l.1) h' in
      subst (λ m. get_id m kv.hpke_key_ids ≡ some kid) same found
]

-- Once a `refresh` has succeeded in a well-formed state in which each number is assigned a name that
-- ends with it, then in every state that the service reaches from there a request of an attested client
-- which the settings let be built, whose report is bound to its wrapping key, and that names the key of the `refresh` and asks for the
-- JWK format, is given the private key that belongs to the public one which `refresh` answered, as long
-- as the key has not expired and CCF wraps the stored key under that wrapping key.
pub Reach-unwrap_key :
    (ccf : Ccf) (cbor : Cbor) (generated : Option EddsaKeys) (created stamped now : ℕ)
    (kv later : Kv) (refreshing request : Request) (shown item : KeyItem) (wrapping_key : String)
    (sealed : Bytes) (deprecated : Bool)
    → IsWellFormed kv
    → IsNamed kv
    → (refresh ccf generated created stamped kv refreshing).0 ≡ pure shown
    → Reach ccf cbor (refresh ccf generated created stamped kv refreshing).1 later
    → (bound : IsBound ccf later request wrapping_key) → bound.fmt ≡ jwk
    → member bound.body "wrappedKid" ≡ str shown.kid
    → is_expired later.key_rotation now shown ≡ returned (false, deprecated)
    → get_key shown.kid (refresh ccf generated created stamped kv refreshing).1 ≡ some item
    → ccf.wrap_key (jwk_text (without_receipt item)) (codes wrapping_key) ≡ some sealed
    → IsServed ccf now later request (codes wrapping_key) shown
Reach-unwrap_key ccf cbor generated created stamped now kv later refreshing request shown item
      wrapping_key sealed deprecated w named h reach bound format asked valid stored wrapped =
    let after = (refresh ccf generated created stamped kv refreshing).1 in
    let (_, new) = refresh_sound ccf generated created stamped kv refreshing shown w.numbered h in
    let first =
      Reach.then_step Reach.here (Step.refreshing generated created stamped kv refreshing) in
    let (w', _) = Reach-IsWellFormed ccf cbor w first in
    let (named', _) = Reach-KeepsKeys ccf cbor w named first in
    let (_, kept) = Reach-KeepsKeys ccf cbor w' named' reach in
    let kept_stored =
      kept (size kv + 1) shown.kid new.item (get_id-of_latest after new.latest) new.stored in
    let same : some new.item ≡ some item = sym new.stored ∙ stored in
    let one : new.item ≡ item = cc same in
    unwrap_key-IsServed ccf now later request wrapping_key bound format shown new.item new.private
      sealed new.shown new.kept kept_stored asked valid (rw one wrapped)
