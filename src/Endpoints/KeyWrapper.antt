-- ===== src/Endpoints/KeyWrapper.antt =====
-- src/endpoints/KeyWrapper.ts: a key, encrypted for a client, or a dummy where there is no wrapping
-- key. A JSON text is the value that it is the text of.
mod Tests
use depa_kms_gcp_oidc.Prelude.{
  ℕ, ◌+◌, ◌*◌, String, Option, none, some, List, [], ◌∷◌, length, replicate,
}
use depa_kms_gcp_oidc.Js.{Value, obj, field, end, str, concat, decimal}
use depa_kms_gcp_oidc.KeyItem.{KeyItem, without_receipt}
use depa_kms_gcp_oidc.Endpoints.KeyGeneration.{calculate_kid}
use depa_kms_gcp_oidc.Ccf.Messages.{enabled, tink, asymmetric_private, KeyData, Keyset}
use depa_kms_gcp_oidc.Ccf.{Ccf, RsaKeys, jwk, keyset}
use depa_kms_gcp_oidc.ServiceResult.{
  private_key_missing, callee_error, Throws, returned, ◌>>=◌, or_throw,
}

-- `` `${id}` ``
abbrev pub id_text : Option ℕ → String
id_text none = "undefined"
id_text (some id) = decimal id

abbrev pub wrap_key_size : ℕ
wrap_key_size = 4096

pub record WrapKey : Type 0 where
  pub kid : String
  pub keys : RsaKeys

-- `generateKey`
unfoldable pub generate_key : Ccf → Throws WrapKey
generate_key ccf = do
  keys ← or_throw callee_error (ccf.generate_rsa_key_pair wrap_key_size)
  returned (record { kid = calculate_kid ccf keys.public_key; keys = keys })

-- The keyset with one private key; its identifier is zero.
abbrev pub tink_key_data : Ccf → (private : List ℕ) → KeyData
tink_key_data ccf private = record {
  type_url = "type.googleapis.com/google.crypto.tink.HpkePrivateKey";
  value = ccf.hpke_binary (record { version = 0; private_key = private });
  key_material_type = asymmetric_private;
}

abbrev pub tink_keyset : Ccf → (private : List ℕ) → Keyset
tink_keyset ccf private = record {
  primary_key_id = 0;
  key =
      record {
        key_data = some (tink_key_data ccf private);
        status = enabled;
        key_id = 0;
        output_prefix_type = tink;
      }
      ∷ [];
}

-- The encrypted keyset, or as many zeros.
wrap_keyset : Ccf → (wrapping_key : Option (List ℕ)) → (binary : List ℕ) → Throws String
wrap_keyset ccf none binary = returned (ccf.base64_encode (replicate (length binary) 0))
wrap_keyset ccf (some key) binary = do
  wrapped ← or_throw callee_error (ccf.wrap_key (keyset binary) key)
  returned (ccf.base64_encode wrapped)

unfoldable pub create_wrapped_private_tink_key :
    Ccf → (wrapping_key : Option (List ℕ)) → KeyItem → Throws String
unfolding wrap_keyset
create_wrapped_private_tink_key ccf wrapping_key payload = do
  private ← or_throw private_key_missing payload.d
  bytes ← or_throw callee_error (ccf.base64_decode (str private))
  wrap_keyset ccf wrapping_key (ccf.keyset_binary (tink_keyset ccf bytes))

-- `IKeyDataElement`
pub record KeyDataElement : Type 0 where
  pub public_key_signature : String
  pub key_encryption_key_uri : String
  pub key_material : Value

pub record EncryptionKey : Type 0 where
  pub name : String
  pub encryption_key_type : String
  pub public_keyset_handle : String
  pub public_key_material : String
  pub creation_time : String
  pub expiration_time : String
  pub key_data : List KeyDataElement

abbrev key_encryption_key_uri_prefix : String
key_encryption_key_uri_prefix = "azu-kms://"

-- What `keyMaterial` is the JSON text of.
abbrev pub key_material_of : (encrypted : String) → Value
key_material_of encrypted = obj (field "encryptedKeyset" (str encrypted) end)

abbrev pub encryption_key : (now : ℕ) → KeyItem → (encrypted : String) → EncryptionKey
encryption_key now payload encrypted = record {
  name = concat "encryptionKeys/" (id_text payload.id);
  encryption_key_type = "SINGLE_PARTY_HYBRID_KEY";
  public_keyset_handle = "TBD";
  public_key_material = "testtest";
  creation_time = decimal now;
  expiration_time = decimal (now + 365 * 24 * 60 * 60 * 1000);
  key_data =
      record {
        public_key_signature = "";
        key_encryption_key_uri = concat key_encryption_key_uri_prefix payload.kid;
        key_material = key_material_of encrypted;
      }
      ∷ [];
}

-- The keys of `IWrapped`.
unfoldable pub wrap_key_tink : Ccf → ℕ → Option (List ℕ) → KeyItem → Throws (List EncryptionKey)
unfolding create_wrapped_private_tink_key
wrap_key_tink ccf now wrapping_key payload = do
  encrypted ← create_wrapped_private_tink_key ccf wrapping_key payload
  returned (encryption_key now payload encrypted ∷ [])

-- `getEncryptedKeyMaterial`
unfoldable pub get_encrypted_key_material :
    Ccf → Option (List ℕ) → KeyItem → Throws (String × Option String)
get_encrypted_key_material ccf none payload = returned ("", payload.receipt)
get_encrypted_key_material ccf (some key) payload = do
  wrapped ← or_throw callee_error (ccf.wrap_key (jwk (without_receipt payload)) key)
  returned (ccf.base64_encode wrapped, payload.receipt)

unfoldable pub wrap_key_jwt : Ccf → Option (List ℕ) → KeyItem → Throws String
unfolding get_encrypted_key_material
wrap_key_jwt ccf wrapping_key payload = do
  wrapped ← get_encrypted_key_material ccf wrapping_key payload
  returned wrapped.0
