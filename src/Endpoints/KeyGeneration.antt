-- ===== src/Endpoints/KeyGeneration.antt =====
-- src/endpoints/KeyGeneration.ts: hashes and new keys. `stamped` is the value of `Date.now()`.
use depa_kms_gcp_oidc.Prelude.{ℕ, zero, String, Option, none, some, List}
use depa_kms_gcp_oidc.Prelude.Int.{ℤ, pos}
use depa_kms_gcp_oidc.KeyItem.{KeyItem}
use depa_kms_gcp_oidc.Tooling.{Bytes, array_buffer_to_hex}
use depa_kms_gcp_oidc.Ccf.{Ccf, EddsaKeys}

abbrev pub calculate_hash : Ccf → List ℕ → Bytes
calculate_hash ccf buffer = ccf.digest buffer

abbrev pub hex_hash : Ccf → List ℕ → String
hex_hash ccf buffer = array_buffer_to_hex (calculate_hash ccf buffer)

unfoldable pub calculate_kid : Ccf → List ℕ → String
calculate_kid ccf pubkey = ccf.base64url_encode (calculate_hash ccf pubkey)

-- `if (expiry) jwk.expiry = expiry`: zero is not kept.
unfoldable pub kept_expiry : Option ℤ → Option ℤ
kept_expiry none = none
kept_expiry (some (pos zero)) = none
kept_expiry (some expiry) = some expiry

abbrev pub generate_key_item : Ccf → EddsaKeys → (stamped id : ℕ) → Option ℤ → KeyItem
generate_key_item ccf keys stamped id expiry = record {
  kty = keys.kty;
  crv = keys.crv;
  x = keys.x;
  d = some keys.d;
  kid = calculate_kid ccf keys.public_pem;
  timestamp = some stamped;
  expiry = kept_expiry expiry;
  receipt = none;
  id = some id;
}
