-- ===== src/Js/Text.antt =====
-- Texts as code points, and the string methods that the program calls.
use Prim.Native.Char.{Char, code}
use Prim.Native.String
use text.Mathlib.TextLemmas.{nil-append, cons-append}
use depa_kms_gcp_oidc.Prelude.{
  ℕ, ◌≡◌, ap, Bool, true, false, ◌&&◌, ◌||◌, List, [], ◌∷◌, ◌++◌, eqb, if◌then◌else◌,
}
use Prim.Native.String.{String}

-- `s + t`
abbrev pub concat : String → String → String
concat s t = String.◌++◌ s t

-- The characters of a text, as texts of length one.
abbrev pub chars : String → List String
chars String.[] = []
chars (String.◌∷◌ c s) = (String.◌∷◌ c String.[]) ∷ chars s

abbrev pub codes : String → List ℕ
codes String.[] = []
codes (String.◌∷◌ c s) = code c ∷ codes s

-- `s.startsWith(t)`
unfoldable pub is_prefix : List ℕ → List ℕ → Bool
is_prefix [] s = true
is_prefix (c ∷ t) [] = false
is_prefix (c ∷ t) (d ∷ s) = eqb c d && is_prefix t s

same : List ℕ → List ℕ → Bool
same [] [] = true
same (c ∷ t) (d ∷ s) = eqb c d && same t s
same _ _ = false

-- `s.includes(t)`, or a search for the pattern `t` with no special characters.
unfoldable pub contains : List ℕ → List ℕ → Bool
unfolding is_prefix
contains t [] = is_prefix t []
contains t (d ∷ s) = is_prefix t (d ∷ s) || contains t s

-- The pattern `t$`.
unfoldable pub ends_with : List ℕ → List ℕ → Bool
unfolding same
ends_with t [] = same t []
ends_with t (d ∷ s) = same t (d ∷ s) || ends_with t s

push : String → Char → String
push s c = String.◌++◌ s (String.◌∷◌ c String.[])

-- `s.split(sep)` for a separator of one character.
split_from : ℕ → String → String → List String
unfolding push
split_from sep cur String.[] = cur ∷ []
split_from sep cur (String.◌∷◌ c s) =
    let closed = cur ∷ split_from sep "" s in
    let longer = split_from sep (push cur c) s in if eqb (code c) sep then closed else longer

unfoldable pub split : ℕ → String → List String
unfolding split_from
split sep s = split_from sep "" s

pub codes-concat : (s t : String) → codes (concat s t) ≡ codes s ++ codes t
codes-concat String.[] t = ap codes (nil-append t)
codes-concat (String.◌∷◌ c s) t = rw cons-append (ap (λ r. code c ∷ r) (codes-concat s t))
