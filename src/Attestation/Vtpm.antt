-- ===== src/Attestation/Vtpm.antt =====
-- src/attestation/VtpmAttestation.ts: the launch measurements of GCP's machines (Machines), and the
-- result of a vTPM attestation that stands there until there is one. A buffer is the list of its bytes.
pub mod Machines
pub mod Measurements
mod Tests
use depa_kms_gcp_oidc.Prelude.{ℕ, String, Bool, true, Option, some, List, [], ◌∷◌, map, replicate}
use depa_kms_gcp_oidc.Tooling.{Bytes}
use depa_kms_gcp_oidc.Ccf.{SnpPolicy, SnpSignature, SnpAttestation, UvmEndorsements, SnpReport}

pub record PcrSelectionEntry : Type 0 where
  pub hash_algorithm : ℕ
  pub pcr_indices : List ℕ

-- `TcbVersion`
pub record TcbVersion : Type 0 where
  pub boot_loader : ℕ
  pub tee : ℕ
  pub snp : ℕ
  pub microcode : ℕ

-- The attributes of the attestation that the service does not read.
pub record SnpPlatform : Type 0 where
  pub abi_minor : ℕ
  pub abi_major : ℕ
  pub migrate_ma : ℕ
  pub single_socket : ℕ
  pub signature_algo : ℕ
  pub platform_version : TcbVersion
  pub smt_en : ℕ
  pub tsme_en : ℕ
  pub author_key_en : ℕ
  pub mask_chip_key : ℕ
  pub signing_key : ℕ
  pub report_id_ma : Bytes
  pub reported_tcb : TcbVersion
  pub cpuid_fam_id : ℕ
  pub cpuid_mod_id : ℕ
  pub cpuid_step : ℕ
  pub chip_id : Bytes
  pub committed_tcb : TcbVersion
  pub current_minor : ℕ
  pub current_build : ℕ
  pub current_major : ℕ
  pub committed_minor : ℕ
  pub committed_build : ℕ
  pub committed_major : ℕ
  pub launch_tcb : TcbVersion

-- `snp_attestation` in two parts
pub record VtpmAttestationResult : Type 0 where
  pub snp_attestation : SnpAttestation
  pub snp_platform : SnpPlatform
  pub ek_pub_hash_verified : Bool
  pub ek_pub_hash_field : String
  pub pcr_digest : Bytes
  pub pcr_selection : List PcrSelectionEntry
  pub firmware_version : String
  pub nonce : Bytes
  pub uvm_endorsements : Option UvmEndorsements

-- `new Uint8Array(n).buffer`
abbrev zeros : ℕ → Bytes
zeros n = replicate n 0

abbrev test_tcb : TcbVersion
test_tcb = record { boot_loader = 3; tee = 0; snp = 8; microcode = 115 }

abbrev test_attestation : SnpAttestation
test_attestation = record {
  version = some 2;
  guest_svn = some 0;
  policy = some (record { smt = some 1; debug = some 0 });
  family_id = some (zeros 16);
  image_id = some (zeros 16);
  vmpl = some 0;
  report_data = some (zeros 64);
  measurement = some (zeros 48);
  host_data = some (zeros 32);
  id_key_digest = some (zeros 48);
  author_key_digest = some (zeros 48);
  report_id = some (zeros 32);
  signature = some (record { r = some (zeros 72); s = some (zeros 72) });
}

abbrev test_platform : SnpPlatform
test_platform = record {
  abi_minor = 0;
  abi_major = 0;
  migrate_ma = 0;
  single_socket = 0;
  signature_algo = 1;
  platform_version = test_tcb;
  smt_en = 1;
  tsme_en = 0;
  author_key_en = 0;
  mask_chip_key = 0;
  signing_key = 0;
  report_id_ma = zeros 32;
  reported_tcb = test_tcb;
  cpuid_fam_id = 0;
  cpuid_mod_id = 0;
  cpuid_step = 0;
  chip_id = zeros 64;
  committed_tcb = test_tcb;
  current_minor = 0;
  current_build = 0;
  current_major = 0;
  committed_minor = 0;
  committed_build = 0;
  committed_major = 0;
  launch_tcb = test_tcb;
}

abbrev pub hardcoded_gcp_vtpm_result : VtpmAttestationResult
hardcoded_gcp_vtpm_result = record {
  snp_attestation = test_attestation;
  snp_platform = test_platform;
  ek_pub_hash_verified = true;
  ek_pub_hash_field = "0000000000000000000000000000000000000000000000000000000000000000";
  pcr_digest = zeros 32;
  pcr_selection =
      record { hash_algorithm = 4; pcr_indices = 0 ∷ (1 ∷ (2 ∷ (3 ∷ (4 ∷ (5 ∷ (6 ∷ (7 ∷ []))))))) }
      ∷ [];
  firmware_version = "0x0000000600000004";
  nonce = zeros 32;
  uvm_endorsements = some (record {
    did = some "did:x509:0:sha256:test_gcp_did";
    feed = some "test-gcp-feed";
    svn = some "1";
  });
}

-- The report of a result, for `getClaims`.
abbrev pub report_of : VtpmAttestationResult → SnpReport
report_of result = record {
  attestation = some result.snp_attestation;
  uvm_endorsements = result.uvm_endorsements;
}
