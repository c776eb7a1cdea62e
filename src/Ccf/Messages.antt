-- ===== src/Ccf/Messages.antt =====
-- endpoints/proto/gen/tink_pb.ts and hpke_pb.ts, under src/: the messages of Tink that the program
-- fills in. Their binary form is made by a library.
use depa_kms_gcp_oidc.Prelude.{ℕ, String, Option, List}
use depa_kms_gcp_oidc.Tooling.{Bytes}

pub data KeyStatusType : Type 0 where
  unknown_status enabled disabled destroyed : KeyStatusType

pub data OutputPrefixType : Type 0 where
  unknown_prefix tink legacy raw crunchy : OutputPrefixType

pub data KeyMaterialType : Type 0 where
  unknown_keymaterial symmetric asymmetric_private asymmetric_public remote : KeyMaterialType

-- The public key, which the program leaves out, is left out here.
pub record HpkePrivateKey : Type 0 where
  pub version : ℕ
  pub private_key : Bytes

pub record KeyData : Type 0 where
  pub type_url : String
  pub value : Bytes
  pub key_material_type : KeyMaterialType

pub record KeysetKey : Type 0 where
  pub key_data : Option KeyData
  pub status : KeyStatusType
  pub key_id : ℕ
  pub output_prefix_type : OutputPrefixType

pub record Keyset : Type 0 where
  pub primary_key_id : ℕ
  pub key : List KeysetKey
