-- ===== src/Repositories/Receipts.antt =====
-- The handle under which a receipt is fetched.
use depa_kms_gcp_oidc.Prelude.{ℕ, ◌<◌, ◌≡◌, some, List, [], ◌∷◌, arith, All}
use depa_kms_gcp_oidc.Repositories.{calc_version}

-- The handle that is computed from the bytes of a key's name is its eighth byte: the seven before
-- it are shifted out.
pub calc_version-eighth_byte :
    (b₁ b₂ b₃ b₄ b₅ b₆ b₇ b₈ : ℕ) (rest : List ℕ)
    → All (λ b. b < 256) (b₁ ∷ b₂ ∷ b₃ ∷ b₄ ∷ b₅ ∷ b₆ ∷ b₇ ∷ b₈ ∷ [])
    → calc_version (b₁ ∷ b₂ ∷ b₃ ∷ b₄ ∷ b₅ ∷ b₆ ∷ b₇ ∷ b₈ ∷ rest) ≡ some b₈
unfolding calc_version
calc_version-eighth_byte b₁ b₂ b₃ b₄ b₅ b₆ b₇ b₈ rest h = ground arith
