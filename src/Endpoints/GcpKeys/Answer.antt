-- ===== src/Endpoints/GcpKeys/Answer.antt =====
-- When `unwrapKeyGcp` does give out the newest key, also right after `refresh`.
use depa_kms_gcp_oidc.Prelude.{ℕ, ◌≡◌, refl, ap, String, true, Option, some, List, eq_refl}
use depa_kms_gcp_oidc.Js.{truthy, to_string, codes}
use depa_kms_gcp_oidc.KeyItem.{KeyItem, without_receipt}
use depa_kms_gcp_oidc.Tooling.{Bytes, unescape_newlines}
use depa_kms_gcp_oidc.Ccf.{Ccf, EddsaKeys, jwk}
use depa_kms_gcp_oidc.Repositories.{Kv, latest_item, get_key, receipt}
use depa_kms_gcp_oidc.Repositories.Numbering.{IsNumbered}
use depa_kms_gcp_oidc.Authorization.{Request, is_authenticated}
use depa_kms_gcp_oidc.Endpoints.Handler.{pure}
use depa_kms_gcp_oidc.Endpoints.PrivateKeys.{or_empty, text_of}
use depa_kms_gcp_oidc.Endpoints.PrivateKeys.Answer.{passes_of_success, pem-truthy}
use depa_kms_gcp_oidc.Endpoints.KeyGeneration.{hex_hash}
use depa_kms_gcp_oidc.Endpoints.Refresh.{refresh}
use depa_kms_gcp_oidc.Endpoints.Refresh.NewKey.{refresh_sound}
use depa_kms_gcp_oidc.Endpoints.GcpKeys.{
  GcpResponse, eat_nonce_claim, passes_pem, wrap_latest, unwrap_key_gcp,
}
use depa_kms_gcp_oidc.Endpoints.GcpKeys.Binding.{IsBound}

-- The answer for the newest key.
abbrev pub answer : Ccf → String → Bytes → GcpResponse
answer ccf kid sealed = record {
  wrapped_kid = kid;
  wrapped = ccf.base64_encode sealed;
  receipt = or_empty (receipt ccf kid);
}

-- The newest key of the store, wrapped.
pub record CanWrap (ccf : Ccf) (kv : Kv) (wrapping_key : List ℕ) (kid : String) (sealed : Bytes)
    : Type 0 where
  pub item : KeyItem
  pub newest : (latest_item kv).1 ≡ some kid
  pub stored : get_key kid kv ≡ some item
  pub wrapped : ccf.wrap_key (jwk (without_receipt item)) wrapping_key ≡ some sealed

wrap_latest_complete :
    (ccf : Ccf) (kv : Kv) (wrapping_key : List ℕ) (kid : String) (sealed : Bytes)
    → CanWrap ccf kv wrapping_key kid sealed
    → wrap_latest ccf kv wrapping_key ≡ pure (answer ccf kid sealed)
unfolding wrap_latest
wrap_latest_complete ccf kv wrapping_key kid sealed c = rw (c.newest, c.stored, c.wrapped) refl

-- A request that the settings let be built and that passes the authentication, with a PEM wrapping key and a token whose nonce is there
-- and is the hash of that key with its newlines unescaped, is given the newest key of the store, if
-- that is stored and CCF wraps it.
pub unwrap_key_gcp_complete :
    (ccf : Ccf) (kv : Kv) (request : Request) (wrapping_key kid : String) (sealed : Bytes)
    → IsBound ccf kv request wrapping_key
    → truthy (eat_nonce_claim request) ≡ true
    → CanWrap ccf kv (unescape_newlines (codes wrapping_key)) kid sealed
    → unwrap_key_gcp ccf kv request ≡ pure (answer ccf kid sealed)
unfolding unwrap_key_gcp passes_pem to_string text_of
unwrap_key_gcp_complete ccf kv request wrapping_key kid sealed b given c =
    let (s, passed) = passes_of_success (is_authenticated kv request) b.authenticated in
    let there = pem-truthy wrapping_key b.pem in
    rw
      (
        b.constructed,
        passed,
        b.asked,
        there,
        b.pem,
        given,
        b.bound,
        eq_refl (hex_hash ccf (unescape_newlines (codes wrapping_key))),
      )
      (wrap_latest_complete ccf kv (unescape_newlines (codes wrapping_key)) kid sealed c)

-- Once a `refresh` has succeeded on a store whose numbers are exactly those from 1 to the size, a
-- request that the settings let be built, that passes the authentication then, with a PEM wrapping key and a nonce that is there and
-- is the hash of that key with its newlines unescaped, is given the key that was refreshed, if CCF
-- wraps the stored key under that wrapping key.
pub refresh-unwrap_key_gcp :
    (ccf : Ccf) (generated : Option EddsaKeys) (created stamped : ℕ) (kv : Kv)
    (refreshing request : Request) (shown item : KeyItem) (wrapping_key : String) (sealed : Bytes)
    → IsNumbered kv
    → (refresh ccf generated created stamped kv refreshing).0 ≡ pure shown
    → IsBound ccf (refresh ccf generated created stamped kv refreshing).1 request wrapping_key
    → truthy (eat_nonce_claim request) ≡ true
    → get_key shown.kid (refresh ccf generated created stamped kv refreshing).1 ≡ some item
    → ccf.wrap_key (jwk (without_receipt item)) (unescape_newlines (codes wrapping_key))
      ≡ some sealed
    → unwrap_key_gcp ccf (refresh ccf generated created stamped kv refreshing).1 request
      ≡ pure (answer ccf shown.kid sealed)
refresh-unwrap_key_gcp ccf generated created stamped kv refreshing request shown item wrapping_key
      sealed n h bound given stored wrapped =
    let after = (refresh ccf generated created stamped kv refreshing).1 in
    let (_, new) = refresh_sound ccf generated created stamped kv refreshing shown n h in
    let can : CanWrap ccf after (unescape_newlines (codes wrapping_key)) shown.kid sealed = record {
      item = item;
      newest = ap (λ l. l.1) new.latest;
      stored = stored;
      wrapped = wrapped;
    } in
    unwrap_key_gcp_complete ccf after request wrapping_key shown.kid sealed bound given can
