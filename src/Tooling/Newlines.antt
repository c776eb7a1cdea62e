-- ===== src/Tooling/Newlines.antt =====
-- Unescaping the newlines of a key.
use depa_kms_gcp_oidc.Prelude.{
  ℕ, ◌≡◌, ◌≢◌, refl, ◌⊎◌, inl, inr, ◌&&◌, List, [], ◌∷◌, arith, eqb, Bool-cases,
}
use depa_kms_gcp_oidc.Tooling.{unescape_newlines}

-- No backslash of the key stands in front of an `n`.
abbrev pub IsUnescaped : List ℕ → Type 0
IsUnescaped [] = Unit
IsUnescaped (c ∷ []) = Unit
IsUnescaped (c ∷ (d ∷ key)) = ((c ≢ 92) ⊎ (d ≢ 110)) × IsUnescaped (d ∷ key)

-- A character may stand in front of a key.
abbrev Fits : ℕ → List ℕ → Type 0
Fits c [] = Unit
Fits c (d ∷ _) = (c ≢ 92) ⊎ (d ≢ 110)

IsUnescaped-cons : (c : ℕ) (key : List ℕ) → Fits c key → IsUnescaped key → IsUnescaped (c ∷ key)
IsUnescaped-cons c [] f u = tt
IsUnescaped-cons c (d ∷ key) f u = (f, u)

newline-Fits : (key : List ℕ) → Fits 10 key
newline-Fits [] = tt
newline-Fits (d ∷ key) = inl (omega arith)

Fits-before : (c d : ℕ) (key : List ℕ) → (c ≢ 92) ⊎ (d ≢ 110) → Fits c (unescape_newlines (d ∷ key))
unfolding unescape_newlines
Fits-before c d [] h = h
Fits-before c d (e ∷ key) h = elim (Bool-cases (eqb d 92 && eqb e 110)) [
  | inl escape ↦ rw escape (inr (omega arith))
  | inr plain ↦ rw plain h
]

unescape_newlines-IsUnescaped : (key : List ℕ) → IsUnescaped (unescape_newlines key)
unfolding unescape_newlines
unescape_newlines-IsUnescaped [] = tt
unescape_newlines-IsUnescaped (c ∷ []) = tt
unescape_newlines-IsUnescaped (c ∷ (d ∷ key)) = elim (Bool-cases (eqb c 92 && eqb d 110)) [
  | inl escape ↦ rw escape (
      IsUnescaped-cons 10 _ (newline-Fits (unescape_newlines key))
        (unescape_newlines-IsUnescaped key))
  | inr plain ↦ rw plain (
      IsUnescaped-cons c _ (Fits-before c d key (ground arith))
        (unescape_newlines-IsUnescaped (d ∷ key)))
]

unescape_newlines_of_IsUnescaped : (key : List ℕ) → IsUnescaped key → unescape_newlines key ≡ key
unfolding unescape_newlines
unescape_newlines_of_IsUnescaped [] h = refl
unescape_newlines_of_IsUnescaped (c ∷ []) h = refl
unescape_newlines_of_IsUnescaped (c ∷ (d ∷ key)) (f, h) =
    ground (arith, unescape_newlines_of_IsUnescaped (d ∷ key) h, f)

-- Unescaping leaves no backslash in front of an `n`, and a key with none is left as it is; so to
-- unescape a key a second time changes nothing.
pub unescape_newlines-normal :
    (key : List ℕ)
    → IsUnescaped (unescape_newlines key)
      × (unescape_newlines (unescape_newlines key) ≡ unescape_newlines key)
unescape_newlines-normal key =
    let plain = unescape_newlines-IsUnescaped key in
    (plain, unescape_newlines_of_IsUnescaped (unescape_newlines key) plain)
