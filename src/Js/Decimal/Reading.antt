-- ===== src/Js/Decimal/Reading.antt =====
-- Reading back the decimal texts of natural numbers.
use mathlib.Core.Path.{subst}
use depa_kms_gcp_oidc.Prelude.{
  ℕ, zero, suc, ◌+◌, ◌-◌, ◌*◌, ◌/◌, ◌%◌, ◌<◌, ◌≡◌, refl, sym, ap, ◌∙◌, inl, inr, String, false,
  List, [], ◌∷◌, ◌++◌, All, ltb, eqb, arith, Bool-cases,
}
use depa_kms_gcp_oidc.Js.Text.{concat, codes, codes-concat}
use depa_kms_gcp_oidc.Js.Decimal.{digit, decimal_from, decimal}

-- The number that the digits add to `acc`.
read_from : ℕ → List ℕ → ℕ
read_from acc [] = acc
read_from acc (c ∷ cs) = read_from (acc * 10 + (c - 48)) cs

pub read : List ℕ → ℕ
read cs = read_from 0 cs

codes-digit : (d : ℕ) → d < 10 → codes (digit d) ≡ (48 + d) ∷ []
unfolding digit
codes-digit zero h = refl
codes-digit (suc zero) h = refl
codes-digit (suc (suc zero)) h = refl
codes-digit (suc (suc (suc zero))) h = refl
codes-digit (suc (suc (suc (suc zero)))) h = refl
codes-digit (suc (suc (suc (suc (suc zero))))) h = refl
codes-digit (suc (suc (suc (suc (suc (suc zero)))))) h = refl
codes-digit (suc (suc (suc (suc (suc (suc (suc zero))))))) h = refl
codes-digit (suc (suc (suc (suc (suc (suc (suc (suc zero)))))))) h = refl
codes-digit (suc (suc (suc (suc (suc (suc (suc (suc (suc zero))))))))) h = refl
codes-digit (suc (suc (suc (suc (suc (suc (suc (suc (suc (suc d)))))))))) h =
    absurd (omega (arith, h))

codes-digit_then :
    (d : ℕ) (tail : String) → d < 10 → codes (concat (digit d) tail) ≡ (48 + d) ∷ codes tail
codes-digit_then d tail h = codes-concat (digit d) tail ∙ rw (codes-digit d h) refl

-- A code that is no digit is not in the text.
abbrev pub IsFreeOf : ℕ → List ℕ → Type 0
IsFreeOf c cs = All (λ d. eqb d c ≡ false) cs

module _ (c : ℕ) (above : 57 < c) where
  decimal_from-IsFreeOf :
      (f n : ℕ) (tail : String)
      → IsFreeOf c (codes tail)
      → IsFreeOf c (codes (decimal_from f n tail))
  unfolding decimal_from
  decimal_from-IsFreeOf zero n tail free = free
  decimal_from-IsFreeOf (suc f) n tail free =
      let last : n % 10 < 10 = omega arith in
      let longer =
        decimal_from-IsFreeOf f (n / 10) (concat (digit (n % 10)) tail)
          (rw (codes-digit_then (n % 10) tail last) (ground (arith, above), free)) in
      elim (Bool-cases (ltb n 10)) [
        | inl one ↦
            rw (one, decimal_from)
              (rw (codes-digit_then n tail (ground arith)) (ground (arith, above), free))
        | inr more ↦ rw (more, decimal_from) longer
      ]

  pub decimal-IsFreeOf : (n : ℕ) → IsFreeOf c (codes (decimal n))
  unfolding decimal
  decimal-IsFreeOf n = decimal_from-IsFreeOf (suc n) n "" tt

read_from-decimal_from :
    (f n : ℕ) (tail : String)
    → n < f
    → read_from 0 (codes (decimal_from f n tail)) ≡ read_from n (codes tail)
unfolding decimal_from read_from
read_from-decimal_from zero n tail h = absurd (omega (arith, h))
read_from-decimal_from (suc f) n tail h =
    let last : n % 10 < 10 = omega arith in
    elim (Bool-cases (ltb n 10)) [
      | inl one ↦
          let small : n < 10 = ground arith in
          let value : 0 * 10 + (48 + n - 48) ≡ n = omega arith in
          rw (one, decimal_from, codes-digit_then n tail small)
            (ap (λ m. read_from m (codes tail)) value)
      | inr more ↦
          let big : n / 10 < f = ground arith in
          let value : n / 10 * 10 + (48 + n % 10 - 48) ≡ n = omega arith in
          rw (more, decimal_from)
            (read_from-decimal_from f (n / 10) (concat (digit (n % 10)) tail) big
              ∙ rw (codes-digit_then (n % 10) tail last) (ap (λ m. read_from m (codes tail)) value))
    ]

-- The decimal text of a number reads back as the number.
pub read-decimal : (n : ℕ) → read (codes (decimal n)) ≡ n
unfolding decimal read read_from
read-decimal n = read_from-decimal_from (suc n) n "" (omega arith)

not_free : (c : ℕ) (us vs : List ℕ) → IsFreeOf c (us ++ (c ∷ vs)) → ⊥
not_free c [] vs (h, _) = ground (arith, h)
not_free c (u ∷ us) vs (_, h) = not_free c us vs h

-- Where two texts end with the same separator and a part that is free of it, these parts are the same.
pub after_separator :
    (c : ℕ) (xs ys ds es : List ℕ)
    → IsFreeOf c ds
    → IsFreeOf c es
    → xs ++ (c ∷ ds) ≡ ys ++ (c ∷ es)
    → ds ≡ es
after_separator c [] [] ds es fd fe h = cc h
after_separator c [] (y ∷ ys) ds es fd fe h =
    let same : ds ≡ ys ++ (c ∷ es) = cc h in absurd (not_free c ys es (subst (IsFreeOf c) same fd))
after_separator c (x ∷ xs) [] ds es fd fe h =
    let same : es ≡ xs ++ (c ∷ ds) = sym (cc h) in
    absurd (not_free c xs ds (subst (IsFreeOf c) same fe))
after_separator c (x ∷ xs) (y ∷ ys) ds es fd fe h = after_separator c xs ys ds es fd fe (cc h)
