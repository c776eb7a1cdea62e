-- ===== src/Endpoints/Tink.antt =====
-- src/endpoints/TinkKey.ts: public keys in the Tink formats.
pub mod Cache
mod Tests
use depa_kms_gcp_oidc.Prelude.{ℕ, String, Option, none, some, List, [], ◌∷◌}
use depa_kms_gcp_oidc.Js.{str}
use depa_kms_gcp_oidc.KeyItem.{KeyItem}
use depa_kms_gcp_oidc.Ccf.{Ccf}
use depa_kms_gcp_oidc.ServiceResult.{
  primary_key_id_missing, callee_error, Throws, returned, ◌>>=◌, or_throw,
}
use depa_kms_gcp_oidc.Endpoints.KeyWrapper.{id_text}

-- `transformKey`: base64url to base64.
unfoldable pub transform_key : Ccf → KeyItem → Throws String
transform_key ccf item = do
  bytes ← or_throw callee_error (ccf.base64_decode (str item.x))
  returned (ccf.base64_encode bytes)

pub record TinkPublicKey : Type 0 where
  pub key : String
  pub id : String

-- `TinkPublicKey.get`, where nothing is cached
unfoldable pub tink_public_keys : Ccf → List KeyItem → Throws (List TinkPublicKey)
unfolding transform_key
tink_public_keys ccf [] = returned []
tink_public_keys ccf (item ∷ items) = do
  key ← transform_key ccf item
  keys ← tink_public_keys ccf items
  returned (record { key = key; id = id_text item.id } ∷ keys)

pub data TinkKeyStatus : Type 0 where
  enabled : TinkKeyStatus

pub data TinkKeyPrefixType : Type 0 where
  raw : TinkKeyPrefixType

pub data TinkKeyMaterialType : Type 0 where
  asymmetric_public : TinkKeyMaterialType

pub record TinkKeyData : Type 0 where
  pub type_url : String
  pub value : String
  pub key_material_type : TinkKeyMaterialType

pub record TinkKey : Type 0 where
  pub key_data : TinkKeyData
  pub status : TinkKeyStatus
  pub key_id : ℕ
  pub output_prefix_type : TinkKeyPrefixType

pub record TinkKeySet : Type 0 where
  pub primary_key_id : ℕ
  pub key : List TinkKey

-- The key of the set for one value; every `keyId` is the primary one.
abbrev pub tink_key : (primary : ℕ) → (value : String) → TinkKey
tink_key primary value = record {
  key_data = record {
    type_url = "https://schema.org/PublicKey/Azure/HpkePublicKey";
    value = value;
    key_material_type = asymmetric_public;
  };
  status = enabled;
  key_id = primary;
  output_prefix_type = raw;
}

unfoldable pub tink_keys : Ccf → (primary : ℕ) → List KeyItem → Throws (List TinkKey)
unfolding transform_key
tink_keys ccf primary [] = returned []
tink_keys ccf primary (item ∷ items) = do
  value ← transform_key ccf item
  keys ← tink_keys ccf primary items
  returned (tink_key primary value ∷ keys)

abbrev pub first_id : List KeyItem → Option ℕ
first_id [] = none
first_id (item ∷ _) = item.id

-- `TinkKey.get`, where nothing is cached
unfoldable pub tink_key_set : Ccf → List KeyItem → Throws TinkKeySet
unfolding tink_keys
tink_key_set ccf items = do
  primary ← or_throw primary_key_id_missing (first_id items)
  keys ← tink_keys ccf primary items
  returned (record { primary_key_id = primary; key = keys })

-- An object of one of the two classes, with `_tinkKeySet`.
pub record KeySets {ℓ} (A : Type ℓ) : Type ℓ where
  pub key_item : List KeyItem
  pub tink_key_set : Option A

-- A call of a method.
pub data Call : Type 0 where
  get_call serialized_call : Call

-- Their methods, where `build` is what `get` does when nothing is cached.
module _ {A : Type 0} (build : List KeyItem → Throws A) where
  abbrev pub new_key_sets : List KeyItem → KeySets A
  new_key_sets items = record { key_item = items; tink_key_set = none }

  cached_or_built : Option A → List KeyItem → Throws (A × KeySets A)
  cached_or_built (some made) items =
      returned (made, record { key_item = items; tink_key_set = some made })
  cached_or_built none items = do
    made ← build items
    returned (made, record { key_item = items; tink_key_set = some made })

  unfoldable pub get : KeySets A → Throws (A × KeySets A)
  unfolding cached_or_built
  get object = cached_or_built object.tink_key_set object.key_item

  -- The value whose JSON text is answered: `this._tinkKeySet || this.get()` is kept again.
  unfoldable pub serialized : KeySets A → Throws (A × KeySets A)
  unfolding get
  serialized object = elim object.tink_key_set [
    | some made ↦ returned (made, record object { tink_key_set = some made })
    | none ↦ get object >>= λ r. returned (r.0, record r.1 { tink_key_set = some r.0 })
  ]

  abbrev pub call : Call → KeySets A → Throws (A × KeySets A)
  call get_call object = get object
  call serialized_call object = serialized object

  -- What calls in a row answer, and the object after them.
  unfoldable pub calls : List Call → KeySets A → Throws (List A × KeySets A)
  calls [] object = returned ([], object)
  calls (c ∷ cs) object = do
    first ← call c object
    rest ← calls cs first.1
    returned (first.0 ∷ rest.0, rest.1)
