-- ===== src/Repositories.antt =====
-- src/repositories/: the tables of the service. A table with text keys is an association list, that
-- of the key numbers too; a stored JSON text is what `JSON.parse` makes of it, `none` where that
-- throws. `claims_digest` is what the transaction attaches to the ledger.
pub mod Receipts
pub mod Numbering
use depa_kms_gcp_oidc.Prelude.{
  ℕ, zero, suc, ◌+◌, ◌/◌, String, Bool, Option, none, some, List, [], ◌∷◌, length, lookup, insert,
  eqb, if◌then◌else◌,
}
use depa_kms_gcp_oidc.Js.{Value, codes}
use depa_kms_gcp_oidc.KeyItem.{KeyItem}
use depa_kms_gcp_oidc.Tooling.{Bytes}
use depa_kms_gcp_oidc.Ccf.{Ccf}
use depa_kms_gcp_oidc.Policies.KeyRotation.{PolicyMap}

pub record Kv : Type 0 where
  pub hpke_keys : List (String × KeyItem)
  pub hpke_key_ids : List (ℕ × String)
  pub key_release : List (String × Option Value)
  pub gcp_key_release : List (String × Option Value)
  pub settings : List (String × Option Value)
  pub key_rotation : PolicyMap
  pub jwt_validation : List (String × Option Value)
  pub users_certs : List String
  pub members_certs : List String
  pub members_info : List (String × Value)
  -- by the hexadecimal text of the identifier
  pub proposals : List (String × Bytes)
  pub claims_digest : Option Bytes

-- LastestItemStore: `store.get`, `store.set`, `size`.
unfoldable pub get_id : ℕ → List (ℕ × String) → Option String
get_id i [] = none
get_id i ((j, kid) ∷ ids) = if eqb i j then some kid else get_id i ids

unfoldable pub set_id : ℕ → String → List (ℕ × String) → List (ℕ × String)
set_id i kid [] = (i, kid) ∷ []
set_id i kid ((j, old) ∷ ids) = if eqb i j then (i, kid) ∷ ids else (j, old) ∷ set_id i kid ids

abbrev pub size : Kv → ℕ
size kv = length kv.hpke_key_ids

unfoldable pub latest_item : Kv → ℕ × Option String
unfolding get_id
latest_item kv =
    if eqb (size kv) 0 then (size kv, none) else (size kv, get_id (size kv) kv.hpke_key_ids)

-- `LastestItemStore.storeItem`, which is called with no claims.
unfoldable pub store_key_id : ℕ → String → Kv → Kv
unfolding set_id
store_key_id id kid kv = record kv { hpke_key_ids = set_id id kid kv.hpke_key_ids }

-- `KeyStore.storeItem`
unfoldable pub store_key : Ccf → String → KeyItem → String → Kv → Kv
unfolding insert
store_key ccf kid item claims kv = record kv {
  hpke_keys = insert kid item kv.hpke_keys;
  claims_digest = some (ccf.digest (codes claims));
}

unfoldable pub get_key : String → Kv → Option KeyItem
unfolding lookup
get_key kid kv = lookup kid kv.hpke_keys

-- `buf[inx]`, undefined past the end.
byte_at : ℕ → List ℕ → Option ℕ
byte_at i [] = none
byte_at zero (b ∷ bs) = some b
byte_at (suc i) (b ∷ bs) = byte_at i bs

-- `identifier >>= 8; identifier += byte`, where `none` is NaN: the shift makes it zero, and the
-- addition of undefined gives it again.
add_byte : Option ℕ → Option ℕ → Option ℕ
add_byte identifier none = none
add_byte none (some b) = some b
add_byte (some identifier) (some b) = some (identifier / 256 + b)

version_loop : ℕ → ℕ → List ℕ → Option ℕ → Option ℕ
unfolding byte_at add_byte
version_loop zero inx buf identifier = identifier
version_loop (suc left) inx buf identifier =
    version_loop left (inx + 1) buf (add_byte identifier (byte_at inx buf))

-- `calcVersion` in `KeyStore.receipt`
unfoldable pub calc_version : List ℕ → Option ℕ
unfolding version_loop
calc_version buf = version_loop 8 0 buf (some 0)

-- `KeyStore.receipt`
unfoldable pub receipt : Ccf → String → Option String
unfolding calc_version
receipt ccf kid = elim (ccf.version_of_previous_write kid) [
  | none ↦ none
  | some version ↦ ccf.state_receipt (calc_version (codes kid)) version
]
