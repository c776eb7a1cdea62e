-- ===== src/Js/Decimal.antt =====
-- Numbers as exact decimals: `dec n m k` is m / 10 ^ k, negative if n is true.
pub mod Reading
use Prim.Native.Nat.{◌^◌}
use depa_kms_gcp_oidc.Prelude.{
  ℕ, zero, suc, ◌+◌, ◌*◌, ◌/◌, ◌%◌, String, Bool, true, false, not, ◌&&◌, ◌||◌, List, [], ◌∷◌, ltb,
  leb, eqb, if◌then◌else◌,
}
use depa_kms_gcp_oidc.Js.Text.{concat}

pub data Number : Type 0 where
  nan : Number
  infinite : (negative : Bool) → Number
  dec : (negative : Bool) (m k : ℕ) → Number

abbrev pub of_ℕ : ℕ → Number
of_ℕ n = dec false n 0

unfoldable pub is_nan : Number → Bool
is_nan nan = true
is_nan _ = false

unfoldable pub num_is_zero : Number → Bool
num_is_zero (dec _ m _) = eqb m 0
num_is_zero _ = false

-- The positive and the negative part of a decimal, over the denominator 10 ^ l.
abbrev plus_part : Bool → ℕ → ℕ → ℕ
plus_part neg m l = if neg then 0 else m * 10 ^ l

abbrev minus_part : Bool → ℕ → ℕ → ℕ
minus_part neg m l = if neg then m * 10 ^ l else 0

-- `a <= b`: false if either is NaN.
unfoldable pub num_leb : Number → Number → Bool
num_leb (dec s m k) (dec t n l) =
    leb (plus_part s m l + minus_part t n k) (plus_part t n k + minus_part s m l)
num_leb (infinite s) (infinite t) = s || not t
num_leb (infinite s) (dec _ _ _) = s
num_leb (dec _ _ _) (infinite t) = not t
num_leb _ _ = false

-- `a < b`
unfoldable pub num_ltb : Number → Number → Bool
unfolding num_leb
num_ltb a b = num_leb a b && not (num_leb b a)

-- `a === b`
unfoldable pub num_eqb : Number → Number → Bool
unfolding num_leb
num_eqb a b = num_leb a b && num_leb b a

digit_texts : List String
digit_texts =
    "0" ∷ "1" ∷ "2" ∷ "3" ∷ "4" ∷ "5" ∷ "6" ∷ "7" ∷ "8" ∷ "9" ∷ "a" ∷ "b" ∷ "c" ∷ "d" ∷ "e" ∷ "f"
    ∷ []

nth : ℕ → List String → String
nth i [] = ""
nth zero (s ∷ ss) = s
nth (suc i) (s ∷ ss) = nth i ss

-- The text of a digit, of a base up to 16.
unfoldable pub digit : ℕ → String
unfolding digit_texts nth
digit d = nth d digit_texts

decimal_from : ℕ → ℕ → String → String
unfolding digit
decimal_from zero n tail = tail
decimal_from (suc f) n tail =
    let longer = decimal_from f (n / 10) (concat (digit (n % 10)) tail) in
    if ltb n 10 then concat (digit n) tail else longer

-- `n.toString()` of a natural number.
unfoldable pub decimal : ℕ → String
unfolding decimal_from
decimal n = decimal_from (suc n) n ""

-- The last `k` digits of `n`, with leading zeros.
fraction : ℕ → ℕ → String → String
unfolding digit
fraction zero n tail = tail
fraction (suc k) n tail = fraction k (n / 10) (concat (digit (n % 10)) tail)

-- Drops the zeros at the end of a fraction.
print_parts : ℕ → ℕ → String
unfolding decimal fraction
print_parts m zero = decimal m
print_parts m (suc k) =
    let shorter = print_parts (m / 10) k in
    if eqb (m % 10) 0
    then shorter
    else concat (decimal (m / 10 ^ suc k)) (concat "." (fraction (suc k) m ""))

-- `n.toString()`, for magnitudes that print without an exponent.
unfoldable pub num_to_string : Number → String
unfolding print_parts
num_to_string nan = "NaN"
num_to_string (infinite neg) = if neg then "-Infinity" else "Infinity"
num_to_string (dec neg m k) =
    if neg && not (eqb m 0) then concat "-" (print_parts m k) else print_parts m k
