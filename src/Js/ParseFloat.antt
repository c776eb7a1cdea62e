-- ===== src/Js/ParseFloat.antt =====
-- `parseFloat`: the longest prefix of a text that is a decimal literal, after white space.
use Prim.Native.Nat.{◌^◌}
use depa_kms_gcp_oidc.Prelude.{
  ℕ, ◌≡◌, refl, ◌+◌, ◌-◌, ◌*◌, String, Bool, true, false, ◌&&◌, ◌||◌, List, [], ◌∷◌, leb, eqb,
  if◌then◌else◌,
}
use depa_kms_gcp_oidc.Js.Text.{codes, is_prefix}
use depa_kms_gcp_oidc.Js.Decimal.{Number, nan, infinite, dec}

is_space : ℕ → Bool
is_space c =
    eqb c 32
    || leb 9 c && leb c 13
    || eqb c 160
    || eqb c 0x1680
    || leb 0x2000 c && leb c 0x200a
    || eqb c 0x2028
    || eqb c 0x2029
    || eqb c 0x202f
    || eqb c 0x205f
    || eqb c 0x3000
    || eqb c 0xfeff

trim_start : List ℕ → List ℕ
unfolding is_space
trim_start [] = []
trim_start (c ∷ s) = let rest = trim_start s in if is_space c then rest else c ∷ s

is_digit : ℕ → Bool
is_digit c = leb b'0' c && leb c b'9'

-- What a run of digits has read: their number, their value, and the text behind them.
record Run : Type 0 where
  count : ℕ
  value : ℕ
  rest : List ℕ

run : ℕ → ℕ → List ℕ → Run
unfolding is_digit
run n v [] = record { count = n; value = v; rest = [] }
run n v (c ∷ s) =
    let more = run (n + 1) (10 * v + (c - b'0')) s in
    if is_digit c then more else record { count = n; value = v; rest = c ∷ s }

-- The digits behind a point, read on from the integer part.
fraction_run : Run → Run
unfolding run
fraction_run r = elim r.rest [
  | [] ↦ record { count = 0; value = r.value; rest = [] }
  | c ∷ s ↦
      if eqb c b'.' then run 0 r.value s else record { count = 0; value = r.value; rest = c ∷ s }
]

scale_up : Bool → ℕ → ℕ → Run → Number
scale_up neg m k e = elim (eqb e.count 0) [
  | true ↦ dec neg m k
  | false ↦ dec neg (m * 10 ^ e.value) k
]

scale_down : Bool → ℕ → ℕ → Run → Number
scale_down neg m k e = elim (eqb e.count 0) [ true ↦ dec neg m k | false ↦ dec neg m (k + e.value) ]

signed_exponent : Bool → ℕ → ℕ → List ℕ → Number
unfolding run scale_up scale_down
signed_exponent neg m k [] = dec neg m k
signed_exponent neg m k (c ∷ s) =
    if eqb c b'-'
    then scale_down neg m k (run 0 0 s)
    else if eqb c b'+'
    then scale_up neg m k (run 0 0 s)
    else scale_up neg m k (run 0 0 (c ∷ s))

exponent : Bool → ℕ → ℕ → List ℕ → Number
unfolding signed_exponent
exponent neg m k [] = dec neg m k
exponent neg m k (c ∷ s) =
    if eqb c b'e' || eqb c b'E' then signed_exponent neg m k s else dec neg m k

unsigned : Bool → List ℕ → Number
unfolding run fraction_run exponent
unsigned neg s =
    if is_prefix (codes "Infinity") s
    then infinite neg
    else let whole = run 0 0 s in
      let frac = fraction_run whole in
      if eqb whole.count 0 && eqb frac.count 0
      then nan
      else exponent neg frac.value frac.count frac.rest

signed : List ℕ → Number
unfolding unsigned
signed [] = nan
signed (c ∷ s) =
    if eqb c b'-'
    then unsigned true s
    else if eqb c b'+'
    then unsigned false s
    else unsigned false (c ∷ s)

unfoldable pub parse_float : String → Number
unfolding signed trim_start is_prefix
parse_float s = signed (trim_start (codes s))

examples :
    (parse_float " 12.50abc" ≡ dec false 1250 2)
    × (parse_float "-3e2" ≡ dec true 300 0)
    × (parse_float "7E-1" ≡ dec false 7 1)
    × (parse_float ".5" ≡ dec false 5 1)
    × (parse_float "true" ≡ nan)
    × (parse_float "" ≡ nan)
    × (parse_float "-Infinity" ≡ infinite true)
unfolding parse_float
examples = (refl, refl, refl, refl, refl, refl, refl)
