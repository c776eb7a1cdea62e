-- ===== src/Endpoints/Proposals/Surplus.antt =====
-- Which created times `postProposals` counts as surplus.
use mathlib.Core.Path.{subst}
use depa_kms_gcp_oidc.Prelude.{
  ℕ, zero, suc, ◌-◌, ◌≤◌, ◌≡◌, refl, sym, ◌∙◌, inl, inr, String, Bool, true, false, Option, none,
  some, List, [], ◌∷◌, All, any, length, arith, Bool-cases, if◌then◌else◌,
}
use depa_kms_gcp_oidc.Tooling.{Bytes}
use depa_kms_gcp_oidc.ServiceResult.{returned, bind-eq-returned, returned-injective}
use depa_kms_gcp_oidc.Endpoints.Cose.{Cbor, created_time}
use depa_kms_gcp_oidc.Endpoints.Proposals.{
  Times, same_time, set_time, created_times, keys, sorts_before, put, sort, take, proposals_to_keep,
  surplus,
}
use depa_kms_gcp_oidc.Endpoints.Proposals.Listing.{IsAscending, sort-IsAscending}
use depa_kms_gcp_oidc.Endpoints.Proposals.Newest.{IsUpTo, same_time_eq}

-- How often the time is in the list.
unfoldable pub count : Option ℕ → List (Option ℕ) → ℕ
unfolding same_time
count t [] = 0
count t (u ∷ us) = if same_time u t then suc (count t us) else count t us

count-put :
    (t a : Option ℕ) (bs : List (Option ℕ)) → count t (put sorts_before a bs) ≡ count t (a ∷ bs)
unfolding put count
count-put t a [] = refl
count-put t a (b ∷ bs) =
    let later = count-put t a bs in
    elim (Bool-cases (sorts_before a b)) [
      | inl before ↦ rw (before, put) refl
      | inr after ↦ rw (after, put) (ground arith)
    ]

pub count-sort : (t : Option ℕ) (bs : List (Option ℕ)) → count t (sort sorts_before bs) ≡ count t bs
unfolding sort count
count-sort t [] = refl
count-sort t (a ∷ bs) = count-put t a (sort sorts_before bs) ∙ rw (count-sort t bs) refl

pub same_time_refl : (t : Option ℕ) → same_time t t ≡ true
unfolding same_time
same_time_refl none = refl
same_time_refl (some a) = ground arith

-- Each time is in the map once at most.
unfoldable pub IsOnce : Times → Type 0
IsOnce times = (u : Option ℕ) → count u (keys times) ≤ 1

count-set_time_same :
    (t : Option ℕ) (id : String) (times : Times)
    → count t (keys times) ≤ 1
    → count t (keys (set_time t id times)) ≤ 1
unfolding count set_time
count-set_time_same t id [] h = ground arith
count-set_time_same t id ((u, old) ∷ times) h =
    let later = count-set_time_same t id times in
    elim (Bool-cases (same_time u t)) [
      | inl same ↦ let h' = rw same at h in rw (same, set_time, same_time_refl t) h'
      | inr other ↦ let h' = rw other at h in rw (other, set_time) (ground arith)
    ]

count-set_time_other :
    (t u : Option ℕ) (id : String) (times : Times)
    → same_time t u ≡ false
    → count u (keys (set_time t id times)) ≡ count u (keys times)
unfolding count set_time
count-set_time_other t u id [] other = rw other refl
count-set_time_other t u id ((v, old) ∷ times) other =
    let later = count-set_time_other t u id times other in
    elim (Bool-cases (same_time v t)) [
      | inl same ↦
          let apart = subst (λ w. same_time w u ≡ false) (sym (same_time_eq v t same)) other in
          rw (same, set_time, other, apart) refl
      | inr distinct ↦ rw (distinct, set_time) (ground arith)
    ]

pub set_time-IsOnce :
    (t : Option ℕ) (id : String) (times : Times) → IsOnce times → IsOnce (set_time t id times)
unfolding IsOnce
set_time-IsOnce t id times once u = elim (Bool-cases (same_time t u)) [
  | inl same ↦
      subst (λ v. count v (keys (set_time t id times)) ≤ 1) (same_time_eq t u same)
        (count-set_time_same t id times (once t))
  | inr other ↦ let e = count-set_time_other t u id times other in omega (arith, once u, e)
]

pub created_times-IsOnce :
    (cbor : Cbor) (proposals : List (String × Bytes)) (times : Times) {times' : Times}
    → created_times cbor proposals times ≡ returned times'
    → IsOnce times
    → IsOnce times'
unfolding created_times
created_times-IsOnce cbor [] times h once = subst IsOnce (returned-injective h) once
created_times-IsOnce cbor ((id, document) ∷ proposals) times h once =
    let (t, read, rest) = bind-eq-returned (created_time cbor document) _ h in
    created_times-IsOnce cbor proposals (set_time t id times) rest (set_time-IsOnce t id times once)

unfoldable pub is_in : Option ℕ → List (Option ℕ) → Bool
unfolding same_time
is_in t us = any (λ u. same_time u t) us

next_same :
    (t : ℕ) (u v : Option ℕ)
    → same_time u (some t) ≡ true
    → sorts_before u v ≡ true
    → IsUpTo t v
    → same_time v (some t) ≡ true
unfolding same_time
next_same t none v same before up = cc
next_same t (some a) none same before (b, there, low) = cc
next_same t (some a) (some b) same before (c, there, low) =
    let there' : b ≡ c = cc there in ground arith

-- Of times in ascending order up to `t`, one before the last is `t` only if `t` is there twice.
once_is_last :
    (t k : ℕ) (us : List (Option ℕ))
    → IsAscending sorts_before us
    → All (IsUpTo t) us
    → k ≤ length us - 1
    → count (some t) us ≤ 1
    → is_in (some t) (take k us) ≡ false
unfolding count is_in
once_is_last t zero us s up low once = refl
once_is_last t (suc k) [] s up low once = refl
once_is_last t (suc k) (u ∷ []) s up low once = absurd (omega (arith, low))
once_is_last t (suc k) (u ∷ (v ∷ us)) (below, s) (low_u, up) low once =
    let low' : k ≤ length (v ∷ us) - 1 = omega (arith, low) in
    elim (Bool-cases (same_time u (some t))) [
      | inr other ↦
          let once' = rw other at once in rw other (once_is_last t k (v ∷ us) s up low' once')
      | inl same ↦
          let next = next_same t u v same below.0 up.0 in
          let once' = rw (same, next) at once in absurd (omega (arith, once'))
    ]

sorts_before_total : (a b : Option ℕ) → sorts_before a b ≡ false → sorts_before b a ≡ true
sorts_before_total none none h = refl
sorts_before_total none (some b) h = refl
sorts_before_total (some a) none h = cc
sorts_before_total (some a) (some b) h = ground arith

sorts_before_trans :
    (t : ℕ) (a b c : Option ℕ)
    → IsUpTo t a
    → IsUpTo t b
    → IsUpTo t c
    → sorts_before a b ≡ true
    → sorts_before b c ≡ true
    → sorts_before a c ≡ true
sorts_before_trans t (some a) (some b) (some c) _ _ _ h h' = ground arith
sorts_before_trans t none b c (u, there, _) _ _ h h' = cc
sorts_before_trans t a none c _ (u, there, _) _ h h' = cc
sorts_before_trans t a b none _ _ (u, there, _) h h' = cc

-- The latest of the times is not one of those that go.
pub surplus-latest :
    (t : ℕ) (times : Times)
    → All (IsUpTo t) (keys times)
    → IsOnce times
    → is_in (some t) (surplus times) ≡ false
unfolding surplus IsOnce
surplus-latest t times up once =
    let sorted = sort sorts_before (keys times) in
    let (ascending, up') =
      sort-IsAscending sorts_before (IsUpTo t) sorts_before_total (sorts_before_trans t)
        (keys times) up in
    let same = count-sort (some t) (keys times) in
    once_is_last t (length sorted - proposals_to_keep) sorted ascending up' (omega arith)
      (omega (arith, once (some t), same))
