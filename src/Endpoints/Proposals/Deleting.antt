-- ===== src/Endpoints/Proposals/Deleting.antt =====
-- How many proposals go with a list of created times.
use depa_kms_gcp_oidc.Prelude.{
  ℕ, zero, suc, ◌+◌, ◌≤◌, ◌≡◌, refl, ap, ◌∙◌, inl, inr, String, true, false, Option, some, List, [],
  ◌∷◌, ◌==◌, All, length, lookup, erase, lookup-erase, HasUniqueKeys, erase-HasUniqueKeys,
  length-erase, eq_iff, arith, Bool-cases,
}
use depa_kms_gcp_oidc.Tooling.{Bytes}
use depa_kms_gcp_oidc.Endpoints.Proposals.{Times, same_time, get_time, take, delete_times}
use depa_kms_gcp_oidc.Endpoints.Proposals.Surplus.{count, same_time_refl}

-- No two of the times are the same.
abbrev pub AreApart : List (Option ℕ) → Type 0
AreApart [] = Unit
AreApart (u ∷ us) = All (λ v. same_time v u ≡ false) us × AreApart us

All-apart_of_count :
    (u : Option ℕ) (us : List (Option ℕ)) → count u us ≡ 0 → All (λ v. same_time v u ≡ false) us
unfolding count
All-apart_of_count u [] h = tt
All-apart_of_count u (v ∷ us) h = elim (Bool-cases (same_time v u)) [
  | inl same ↦ let h' = rw same at h in absurd (omega (arith, h'))
  | inr other ↦ (other, All-apart_of_count u us (rw other at h))
]

count-tail : (u v : Option ℕ) (us : List (Option ℕ)) → count u us ≤ count u (v ∷ us)
unfolding count
count-tail u v us = ground arith

pub AreApart-of_count : (us : List (Option ℕ)) → ((u : Option ℕ) → count u us ≤ 1) → AreApart us
unfolding count
AreApart-of_count [] once = tt
AreApart-of_count (u ∷ us) once =
    let first = rw (same_time_refl u) at (once u) in
    (
      All-apart_of_count u us (omega (arith, first)),
      AreApart-of_count us (λ v. omega (arith, once v, count-tail v u us)),
    )

pub All-take {ℓ κ} :
    {A : Type ℓ} (P : A → Type κ) (n : ℕ) (xs : List A) → All P xs → All P (take n xs)
All-take P zero xs ps = tt
All-take P (suc n) [] ps = tt
All-take P (suc n) (x ∷ xs) (p, ps) = (p, All-take P n xs ps)

pub take-AreApart : (n : ℕ) (us : List (Option ℕ)) → AreApart us → AreApart (take n us)
take-AreApart zero us apart = tt
take-AreApart (suc n) [] apart = tt
take-AreApart (suc n) (u ∷ us) (first, apart) = (All-take _ n us first, take-AreApart n us apart)

pub length-take {ℓ} : {A : Type ℓ} (n : ℕ) (xs : List A) → n ≤ length xs → length (take n xs) ≡ n
length-take zero xs h = refl
length-take (suc n) [] h = absurd (omega (arith, h))
length-take (suc n) (x ∷ xs) h = ap suc (length-take n xs (omega (arith, h)))

-- Different times stand for different proposals.
abbrev pub HasOwnNames : Times → Type 0
HasOwnNames times =
    (u v : Option ℕ) (name : String)
    → get_time u times ≡ some name
    → get_time v times ≡ some name
    → same_time u v ≡ true

-- The time stands for a proposal of the table.
abbrev pub StandsIn : Times → List (String × Bytes) → Option ℕ → Type 0
StandsIn times proposals u =
    (name : String) × (document : Bytes) × (get_time u times ≡ some name)
    × (lookup name proposals ≡ some document)

erase-StandsIn :
    (times : Times) (proposals : List (String × Bytes)) (t : Option ℕ) {name : String}
    → HasOwnNames times
    → get_time t times ≡ some name
    → (us : List (Option ℕ)) → All (λ u. same_time u t ≡ false) us
    → All (StandsIn times proposals) us
    → All (StandsIn times (erase name proposals)) us
erase-StandsIn times proposals t own at_t [] apart stands = tt
erase-StandsIn times proposals t {name} own at_t (u ∷ us) (other, apart)
      ((asked, document, at_u, found), stands) =
    let later = erase-StandsIn times proposals t own at_t us apart stands in
    let kept = lookup-erase name asked proposals in
    elim (Bool-cases (name == asked)) [
      | inr distinct ↦ ((asked, document, at_u, kept ∙ rw distinct found), later)
      | inl same ↦
          let at_t' = rw ((eq_iff name asked).0 same) at at_t in
          let shared = own u t asked at_u at_t' in cc
    ]

-- Each of the times takes one proposal with it.
pub length-delete_times :
    (ts : List (Option ℕ)) (times : Times) (proposals : List (String × Bytes))
    → HasOwnNames times
    → AreApart ts
    → All (StandsIn times proposals) ts
    → HasUniqueKeys proposals
    → length (delete_times ts times proposals) + length ts ≡ length proposals
unfolding delete_times
length-delete_times [] times proposals own apart stands unique = omega arith
length-delete_times (t ∷ ts) times proposals own (first, apart)
      ((name, document, at_t, found), stands) unique =
    let later =
      length-delete_times ts times (erase name proposals) own apart
        (erase-StandsIn times proposals t own at_t ts first stands)
        (erase-HasUniqueKeys name proposals unique) in
    let shorter = length-erase name proposals unique found in
    rw (at_t, delete_times) (omega (arith, later, shorter))
