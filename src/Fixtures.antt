-- ===== src/Fixtures.antt =====
-- A small service to run the handlers on: a runtime with constant answers, and a store of one key.
use depa_kms_gcp_oidc.Prelude.{ℕ, String, Option, none, some, List, [], ◌∷◌}
use depa_kms_gcp_oidc.Prelude.Int.{pos}
use depa_kms_gcp_oidc.Js.{Value, str, num, arr, obj, nil, cons, end, field, codes, of_ℕ}
use depa_kms_gcp_oidc.KeyItem.{KeyItem}
use depa_kms_gcp_oidc.Ccf.Messages.{KeyData, KeysetKey}
use depa_kms_gcp_oidc.Ccf.{Ccf, EddsaKeys, SnpReport, SnpAttestation}
use depa_kms_gcp_oidc.Policies.KeyRelease.{KeyReleasePolicy, add}
use depa_kms_gcp_oidc.Policies.KeyRotation.{KeyRotationPolicy}
use depa_kms_gcp_oidc.Repositories.{Kv}
use depa_kms_gcp_oidc.Authorization.{Request, user_cert, jwt}
use depa_kms_gcp_oidc.Js.{undefined}

-- Report data that starts with the digest which the runtime answers.
abbrev pub attestation : SnpAttestation
attestation = record {
  version = some 3;
  guest_svn = some 7;
  policy = none;
  family_id = none;
  image_id = none;
  vmpl = some 0;
  report_data = some (171 ∷ 205 ∷ []);
  measurement = none;
  host_data = some (1 ∷ 2 ∷ []);
  id_key_digest = none;
  author_key_digest = none;
  report_id = none;
  signature = none;
}

abbrev pub report : SnpReport
report = record { attestation = some attestation; uvm_endorsements = none }

abbrev decode : Value → Option (List ℕ)
decode (str s) = some (codes s)
decode _ = none

abbrev data_bytes : Option KeyData → List ℕ
data_bytes none = []
data_bytes (some made) = made.value

abbrev first_bytes : List KeysetKey → List ℕ
first_bytes [] = []
first_bytes (k ∷ _) = data_bytes k.key_data

abbrev pub runtime : Ccf
runtime = record {
  digest = λ _. 171 ∷ [];
  generate_rsa_key_pair =
      λ _. some (record { public_key = codes "pub"; private_key = codes "priv" });
  wrap_key = λ _ _. some (1 ∷ []);
  verify_snp_attestation = λ _ _ _ _. some report;
  version_of_previous_write = λ _. some 5;
  state_receipt = λ _ _. some "receipt";
  json_buffer = λ _. some [];
  base64_decode = decode;
  base64_encode = λ _. "wrapped";
  base64url_encode = λ _. "hash";
  hpke_binary = λ k. k.private_key;
  keyset_binary = λ k. first_bytes k.key;
}

abbrev pub pair : EddsaKeys
pair = record { public_pem = []; kty = "OKP"; crv = "X25519"; x = "x"; d = "d" }

abbrev pub stored_key : KeyItem
stored_key = record {
  kty = "OKP";
  crv = "X25519";
  x = "x";
  d = some "d";
  kid = "hash_1";
  timestamp = some 1000;
  expiry = none;
  receipt = none;
  id = some 11;
}

abbrev pub rotation : KeyRotationPolicy
rotation = record { rotation_interval_seconds = pos 60; grace_period_seconds = pos 10 }

-- The claims that the release policy asks for.
abbrev pub wanted_claims : Value
wanted_claims = obj (field "x-ms-ver" (arr (cons (str "2") (cons (str "3") nil))) end)

abbrev pub at_least : Value
at_least = obj (field "x-ms-sevsnpvm-guestsvn" (num (of_ℕ 7)) end)

abbrev pub release : KeyReleasePolicy
release = record { type = add; claims = wanted_claims; gte = at_least; gt = undefined }

abbrev pub token_policy : Value
token_policy = obj (field "hwmodel" (arr (cons (str "TDX") (cons (str "SEV") nil))) end)

abbrev pub store : Kv
store = record {
  hpke_keys = ("hash_1", stored_key) ∷ [];
  hpke_key_ids = (1, "hash_1") ∷ [];
  key_release = ("claims", some wanted_claims) ∷ ("gte", some at_least) ∷ [];
  gcp_key_release = [];
  settings = [];
  key_rotation = ("key_rotation_policy", some rotation) ∷ [];
  jwt_validation = ("issuer", some token_policy) ∷ [];
  users_certs = "user" ∷ [];
  members_certs = [];
  members_info = [];
  proposals = [];
  claims_digest = none;
}

abbrev pub pem : String
pem = "-----BEGIN PUBLIC KEY-----\nkey\n-----END PUBLIC KEY-----\n"

abbrev pub evidence : Value
evidence = obj (
    field "evidence" (str "e") (
      field "endorsements" (str "f")
        (field "uvm_endorsements" (str "u") (field "endorsed_tcb" (str "t") end))))

abbrev pub unwrap_body : Value
unwrap_body = obj (
    field "attestation" evidence (
      field "attestationType" (str "gcp")
        (field "wrappingKey" (str pem) (field "wrappedKid" (str "hash_1") end))))

-- A user with a known certificate.
abbrev pub user_request : Request
user_request = record {
  caller = some (user_cert "user");
  body = some unwrap_body;
  body_length = 0;
  query = "fmt=jwk";
}

abbrev pub token : Value
token = obj (
    field "iss" (str "issuer")
      (field "oid" (str "id") (field "hwmodel" (str "SEV") (field "eat_nonce" (str "ab") end))))

abbrev pub token_request : Request
token_request = record {
  caller = some (jwt token);
  body = some (obj (field "wrappingKey" (str pem) end));
  body_length = 1;
  query = "";
}
