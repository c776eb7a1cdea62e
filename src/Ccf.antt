-- ===== src/Ccf.antt =====
-- What the program calls and does not implement: the CCF runtime (cryptography, attestation,
-- historical queries), js-base64 and the generated protobuf code. Each is a field of `Ccf`, the
-- parameter of what uses it; `none` stands for an exception, or for a value that is missing.
pub mod Messages
use depa_kms_gcp_oidc.Prelude.{ℕ, String, Option, List}
use depa_kms_gcp_oidc.Js.{Value}
use depa_kms_gcp_oidc.Tooling.{Bytes}
use depa_kms_gcp_oidc.KeyItem.{KeyItem}
use depa_kms_gcp_oidc.Ccf.Messages.{HpkePrivateKey, Keyset}

-- `SnpAttestationResult`, with the attributes that the program reads.
pub record SnpPolicy : Type 0 where
  pub smt : Option ℕ
  pub debug : Option ℕ

pub record SnpSignature : Type 0 where
  pub r : Option Bytes
  pub s : Option Bytes

pub record SnpAttestation : Type 0 where
  pub version : Option ℕ
  pub guest_svn : Option ℕ
  pub policy : Option SnpPolicy
  pub family_id : Option Bytes
  pub image_id : Option Bytes
  pub vmpl : Option ℕ
  pub report_data : Option Bytes
  pub measurement : Option Bytes
  pub host_data : Option Bytes
  pub id_key_digest : Option Bytes
  pub author_key_digest : Option Bytes
  pub report_id : Option Bytes
  pub signature : Option SnpSignature

pub record UvmEndorsements : Type 0 where
  pub did : Option String
  pub feed : Option String
  pub svn : Option String

pub record SnpReport : Type 0 where
  pub attestation : Option SnpAttestation
  pub uvm_endorsements : Option UvmEndorsements

-- A key pair for RSA, `CryptoKeyPair`, both as PEM.
pub record RsaKeys : Type 0 where
  pub public_key : List ℕ
  pub private_key : List ℕ

-- A key pair as CCF makes it: the JSON web key but for its `kid`, and the public key as PEM.
pub record EddsaKeys : Type 0 where
  pub public_pem : List ℕ
  pub kty : String
  pub crv : String
  pub x : String
  pub d : String

-- What is encrypted for a client: the JSON text of a key, or a serialized Tink keyset.
pub data Plaintext : Type 0 where
  jwk : KeyItem → Plaintext
  keyset : Bytes → Plaintext

pub record Ccf : Type 0 where
  -- SHA-256 of a buffer
  pub digest : List ℕ → Bytes
  -- a key pair of so many bits
  pub generate_rsa_key_pair : ℕ → Option RsaKeys
  -- RSA-OAEP under a PEM public key
  pub wrap_key : Plaintext → List ℕ → Option Bytes
  pub verify_snp_attestation : Bytes → Bytes → Bytes → Value → Option SnpReport
  pub version_of_previous_write : String → Option ℕ
  -- the receipt of the first state of the range of one version, for a handle, undefined if NaN; a call
  -- that throws is taken for one with no receipt
  pub state_receipt : (handle : Option ℕ) → (version : ℕ) → Option String
  -- `jsonCompatibleToBuf`
  pub json_buffer : Value → Option (List ℕ)
  pub base64_decode : Value → Option Bytes
  pub base64_encode : Bytes → String
  pub base64url_encode : Bytes → String
  -- `toBinary` of the two messages
  pub hpke_binary : HpkePrivateKey → Bytes
  pub keyset_binary : Keyset → Bytes
