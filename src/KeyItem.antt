-- ===== src/KeyItem.antt =====
-- src/endpoints/IKeyItem.ts: a key pair of the store, a JSON web key with its times and its number.
-- Times are in milliseconds since the epoch.
use depa_kms_gcp_oidc.Prelude.{ℕ, String, Option, none}
use depa_kms_gcp_oidc.Prelude.Int.{ℤ}

pub record KeyItem : Type 0 where
  pub kty : String
  pub crv : String
  -- the public key
  pub x : String
  -- the private key
  pub d : Option String
  pub kid : String
  pub timestamp : Option ℕ
  pub expiry : Option ℤ
  pub receipt : Option String
  pub id : Option ℕ

-- `delete keyItem.d`
abbrev pub without_private : KeyItem → KeyItem
without_private item = record item { d = none }

-- `delete payload.receipt`
abbrev pub without_receipt : KeyItem → KeyItem
without_receipt item = record item { receipt = none }
