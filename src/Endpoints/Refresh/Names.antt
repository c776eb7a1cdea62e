-- ===== src/Endpoints/Refresh/Names.antt =====
-- The names that `refresh` gives to new keys.
use depa_kms_gcp_oidc.Prelude.{ℕ, ◌≡◌, refl, sym, ap, ◌∙◌, String, Option, some, ◌∷◌, ◌++◌, arith}
use depa_kms_gcp_oidc.Prelude.Int.{ℤ}
use depa_kms_gcp_oidc.Js.{concat, codes, decimal}
use depa_kms_gcp_oidc.Js.Text.{codes-concat}
use depa_kms_gcp_oidc.Js.Decimal.Reading.{read, read-decimal, decimal-IsFreeOf, after_separator}
use depa_kms_gcp_oidc.Ccf.{Ccf, EddsaKeys}
use depa_kms_gcp_oidc.Repositories.{Kv, get_id}
use depa_kms_gcp_oidc.Endpoints.Refresh.{new_key}

-- The name ends with an underscore and the number.
abbrev pub IsNameOf : ℕ → String → Type 0
IsNameOf i kid = (hash : String) × (kid ≡ concat hash (concat "_" (decimal i)))

codes-name :
    (hash : String) (i : ℕ)
    → codes (concat hash (concat "_" (decimal i))) ≡ codes hash ++ (95 ∷ codes (decimal i))
codes-name hash i =
    codes-concat hash (concat "_" (decimal i))
    ∙ ap (λ r. codes hash ++ r) (codes-concat "_" (decimal i))

-- A name has one number.
pub IsNameOf-injective : (i j : ℕ) (kid : String) → IsNameOf i kid → IsNameOf j kid → i ≡ j
IsNameOf-injective i j kid (g, first) (h, second) =
    let same = sym (codes-name g i) ∙ ap codes (sym first ∙ second) ∙ codes-name h j in
    let digits =
      after_separator 95 (codes g) (codes h) (codes (decimal i)) (codes (decimal j))
        (decimal-IsFreeOf 95 (omega arith) i) (decimal-IsFreeOf 95 (omega arith) j) same in
    sym (read-decimal i) ∙ ap read digits ∙ read-decimal j

pub new_key-IsNameOf :
    (ccf : Ccf) (keys : EddsaKeys) (stamped : ℕ) (expiry : Option ℤ) (id : ℕ)
    → IsNameOf id (new_key ccf keys stamped expiry id).kid
new_key-IsNameOf ccf keys stamped expiry id = (_, refl)

-- Each number is assigned a name that ends with it.
abbrev pub IsNamed : Kv → Type 0
IsNamed kv = (i : ℕ) (kid : String) → get_id i kv.hpke_key_ids ≡ some kid → IsNameOf i kid
