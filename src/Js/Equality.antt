-- ===== src/Js/Equality.antt =====
-- `===`: it is symmetric and transitive, on numbers, too, which have many forms.
use Prim.Native.Nat.{◌^◌}
use native.Mathlib.Nat.{mul-div_cancel, mul_right_comm}
use depa_kms_gcp_oidc.Prelude.{
  ℕ, zero, suc, ◌+◌, ◌*◌, ◌/◌, ◌<◌, ◌≡◌, refl, sym, ap, ◌∙◌, Bool, true, false, ◌&&◌, ◌⊎◌, inl, inr,
  leb, arith, if◌then◌else◌,
}
use depa_kms_gcp_oidc.Js.Decimal.{Number, nan, infinite, dec, num_leb, num_eqb}

ten_pos : (k : ℕ) → 0 < 10 ^ k
ten_pos zero = omega arith
ten_pos (suc k) = let h = ten_pos k in omega arith

cancel : (x y : ℕ) {l : ℕ} → 0 < l → x * l ≡ y * l → x ≡ y
cancel x y {l} pos h = sym (mul-div_cancel x pos) ∙ ap (λ z. z / l) h ∙ mul-div_cancel y pos

-- Equality of two decimals, brought to one denominator.
IsSame : (s t : Bool) (x y : ℕ) → Type 0
IsSame s t x y = (x ≡ y) × ((s ≡ t) ⊎ (x ≡ 0))

signed_eqb : (s t : Bool) (x y : ℕ) → Bool
signed_eqb s t x y =
    let a = (if s then 0 else x) + (if t then y else 0) in
    let b = (if t then 0 else y) + (if s then x else 0) in leb a b && leb b a

signed_eqb-IsSame : (s t : Bool) (x y : ℕ) → signed_eqb s t x y ≡ true → IsSame s t x y
unfolding IsSame signed_eqb
signed_eqb-IsSame true true x y h = (ground arith, inl refl)
signed_eqb-IsSame false false x y h = (ground arith, inl refl)
signed_eqb-IsSame true false x y h = (ground arith, inr (ground arith))
signed_eqb-IsSame false true x y h = (ground arith, inr (ground arith))

IsSame-signed_eqb : (s t : Bool) (x y : ℕ) → IsSame s t x y → signed_eqb s t x y ≡ true
unfolding IsSame signed_eqb
IsSame-signed_eqb true true x y (h, g) = ground arith
IsSame-signed_eqb false false x y (h, g) = ground arith
IsSame-signed_eqb true false x y (h, inl g) = cc
IsSame-signed_eqb true false x y (h, inr g) = ground arith
IsSame-signed_eqb false true x y (h, inl g) = cc
IsSame-signed_eqb false true x y (h, inr g) = ground arith

-- Two fractions that are equal to a third one.
cross : (m n q k : ℕ) {l : ℕ} (j : ℕ) → 0 < l → m * l ≡ n * k → n * j ≡ q * l → m * j ≡ q * k
cross m n q k {l} j pos first second = cancel (m * j) (q * k) pos (
    mul_right_comm m j l
    ∙ ap (λ z. z * j) first
    ∙ mul_right_comm n k j
    ∙ ap (λ z. z * k) second
    ∙ mul_right_comm q l k)

vanishes : (m : ℕ) {l : ℕ} (j : ℕ) → 0 < l → m * l ≡ 0 → m * j ≡ 0
vanishes m {l} j pos h =
    let none_left : 0 * l ≡ 0 = omega arith in
    let gone : 0 * j ≡ 0 = omega arith in
    ap (λ z. z * j) (cancel m 0 pos (h ∙ sym none_left)) ∙ gone

IsSame-trans :
    (s t u : Bool) (m n q k : ℕ) {l : ℕ} (j : ℕ)
    → 0 < l
    → 0 < k
    → IsSame s t (m * l) (n * k)
    → IsSame t u (n * j) (q * l)
    → 0 < j
    → IsSame s u (m * j) (q * k)
unfolding IsSame
IsSame-trans s t u m n q k j pos pos' (first, inl g) (second, inl g') pos'' =
    (cross m n q k j pos first second, inl (g ∙ g'))
IsSame-trans s t u m n q k j pos pos' (first, inr g) (second, _) pos'' =
    (cross m n q k j pos first second, inr (vanishes m j pos g))
IsSame-trans s t u m n q k {l} j pos pos' (first, inl g) (second, inr g') pos'' =
    (cross m n q k j pos first second, inr (vanishes m j pos (first ∙ vanishes n k pos'' g')))

pub num_eqb_trans : (a b c : Number) → num_eqb a b ≡ true → num_eqb b c ≡ true → num_eqb a c ≡ true
unfolding num_eqb signed_eqb num_leb
num_eqb_trans (dec s m k) (dec t n l) (dec u q j) h h' =
    IsSame-signed_eqb s u (m * 10 ^ j) (q * 10 ^ k) (
      IsSame-trans s t u m n q (10 ^ k) (10 ^ j) (ten_pos l) (ten_pos k)
        (signed_eqb-IsSame s t (m * 10 ^ l) (n * 10 ^ k) h)
        (signed_eqb-IsSame t u (n * 10 ^ j) (q * 10 ^ l) h') (ten_pos j))
num_eqb_trans (infinite s) (infinite t) (infinite u) h h' = ground arith
num_eqb_trans nan b c h h' = cc
num_eqb_trans (infinite s) nan c h h' = cc
num_eqb_trans (dec s m k) nan c h h' = cc
num_eqb_trans (infinite true) (dec t n l) c h h' = cc
num_eqb_trans (infinite false) (dec t n l) c h h' = cc
num_eqb_trans (dec s m k) (infinite true) c h h' = cc
num_eqb_trans (dec s m k) (infinite false) c h h' = cc
num_eqb_trans (dec s m k) (dec t n l) nan h h' = cc
num_eqb_trans (dec s m k) (dec t n l) (infinite true) h h' = cc
num_eqb_trans (dec s m k) (dec t n l) (infinite false) h h' = cc
num_eqb_trans (infinite s) (infinite t) nan h h' = cc
num_eqb_trans (infinite s) (infinite true) (dec u q j) h h' = cc
num_eqb_trans (infinite s) (infinite false) (dec u q j) h h' = cc

pub num_eqb_sym : (a b : Number) → num_eqb a b ≡ true → num_eqb b a ≡ true
unfolding num_eqb
num_eqb_sym a b h = ground arith
