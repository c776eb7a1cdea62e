-- ===== src/Endpoints/Cose.antt =====
-- src/utils/cose.ts: the protected header of a COSE document. What the program reads of a header is
-- its created time, a whole number where it is there.
use depa_kms_gcp_oidc.Prelude.{ℕ, Option, some, ◌∷◌}
use depa_kms_gcp_oidc.Tooling.{Bytes}
use depa_kms_gcp_oidc.ServiceResult.{
  callee_error, no_protected_header, Throws, returned, thrown, ◌>>=◌, or_throw,
}

-- The package cbor-x, which the program calls; `none` is an exception.
pub record Cbor : Type 0 where
  -- `decode(document).value[0]`, where the value inside is none if it is missing
  pub first_part : (document : Bytes) → Option (Option Bytes)
  -- `decode(header)["ccf.gov.msg.created_at"]`, where the value inside is none if it is undefined
  pub created_at : (header : Bytes) → Option (Option ℕ)

-- `protectedHeaderBytes && protectedHeaderBytes.length > 0`
header_bytes : Option Bytes → Throws Bytes
header_bytes (some (b ∷ bs)) = returned (b ∷ bs)
header_bytes _ = thrown no_protected_header

-- `getCoseProtectedHeader(document)["ccf.gov.msg.created_at"]`
unfoldable pub created_time : Cbor → (document : Bytes) → Throws (Option ℕ)
unfolding header_bytes
created_time cbor document = do
  first ← or_throw callee_error (cbor.first_part document)
  header ← header_bytes first
  or_throw callee_error (cbor.created_at header)
