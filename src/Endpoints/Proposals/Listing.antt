-- ===== src/Endpoints/Proposals/Listing.antt =====
-- In which order `getProposals` shows the proposals.
use mathlib.Core.List.{Perm}
use mathlib.Core.List.Perm
use depa_kms_gcp_oidc.Prelude.{
  ℕ, suc, ◌≡◌, refl, ap, length, ◌∙◌, String, Bool, true, false, Option, none, some, List, [], ◌∷◌,
  All, arith, Bool-cases, inl, inr,
}
use depa_kms_gcp_oidc.Tooling.{Bytes}
use depa_kms_gcp_oidc.ServiceResult.{returned}
use depa_kms_gcp_oidc.Endpoints.Cose.{Cbor, created_time}
use depa_kms_gcp_oidc.Endpoints.Proposals.{put, sort, dated_before}

module _ {ℓ} {A : Type ℓ} (le : A → A → Bool) where
  pub put-perm : (a : A) (bs : List A) → Perm (put le a bs) (a ∷ bs)
  unfolding put
  put-perm a [] = Perm.rfl
  put-perm a (b ∷ bs) = elim (Bool-cases (le a b)) [
    | inl before ↦ rw (before, put) Perm.rfl
    | inr after ↦ rw (after, put) (Perm.trans (Perm.cons b (put-perm a bs)) (Perm.swap a b bs))
  ]

  pub sort-perm : (bs : List A) → Perm (sort le bs) bs
  unfolding sort
  sort-perm [] = Perm.rfl
  sort-perm (a ∷ bs) = Perm.trans (put-perm a (sort le bs)) (Perm.cons a (sort-perm bs))

  pub length-put : (a : A) (bs : List A) → length (put le a bs) ≡ suc (length bs)
  unfolding put
  length-put a [] = refl
  length-put a (b ∷ bs) =
      let later = length-put a bs in
      elim (Bool-cases (le a b)) [
        | inl before ↦ rw (before, put) refl
        | inr after ↦ rw (after, put) (ap suc later)
      ]

  pub length-sort : (bs : List A) → length (sort le bs) ≡ length bs
  unfolding sort
  length-sort [] = refl
  length-sort (b ∷ bs) = length-put b (sort le bs) ∙ ap suc (length-sort bs)

  pub All-put {κ} : (P : A → Type κ) (a : A) (bs : List A) → P a → All P bs → All P (put le a bs)
  unfolding put
  All-put P a [] p ps = (p, tt)
  All-put P a (b ∷ bs) p (q, ps) = elim (Bool-cases (le a b)) [
    | inl before ↦ rw (before, put) (p, (q, ps))
    | inr after ↦ rw (after, put) (q, All-put P a bs p ps)
  ]

  pub All-sort {κ} : (P : A → Type κ) (bs : List A) → All P bs → All P (sort le bs)
  unfolding sort
  All-sort P [] ps = tt
  All-sort P (b ∷ bs) (p, ps) = All-put P b (sort le bs) p (All-sort P bs ps)

  -- Each element is in order with all that come after it.
  abbrev pub IsAscending : List A → Type ℓ
  IsAscending [] = Unit
  IsAscending (a ∷ bs) = All (λ b. le a b ≡ true) bs × IsAscending bs

-- Where `le` is total, and transitive on the elements of `Q`, `sort` orders lists of those.
module _ {ℓ κ} {A : Type ℓ} (le : A → A → Bool) (Q : A → Type κ)
    (total : (a b : A) → le a b ≡ false → le b a ≡ true)
    (trans : (a b c : A) → Q a → Q b → Q c → le a b ≡ true → le b c ≡ true → le a c ≡ true) where
  below-All :
      (a b : A) (cs : List A)
      → Q a
      → Q b
      → All Q cs
      → le a b ≡ true
      → All (λ c. le b c ≡ true) cs
      → All (λ c. le a c ≡ true) cs
  below-All a b [] qa qb qs h hs = tt
  below-All a b (c ∷ cs) qa qb (qc, qs) h (first, rest) =
      (trans a b c qa qb qc h first, below-All a b cs qa qb qs h rest)

  put-IsAscending :
      (a : A) (bs : List A) → Q a → All Q bs → IsAscending le bs → IsAscending le (put le a bs)
  unfolding put
  put-IsAscending a [] qa qs s = (tt, tt)
  put-IsAscending a (b ∷ bs) qa (qb, qs) (below, s) = elim (Bool-cases (le a b)) [
    | inl before ↦ rw (before, put) ((before, below-All a b bs qa qb qs before below), (below, s))
    | inr after ↦
        rw (after, put)
          (
            All-put le (λ c. le b c ≡ true) a bs (total a b after) below,
            put-IsAscending a bs qa qs s,
          )
  ]

  pub sort-IsAscending : (bs : List A) → All Q bs → IsAscending le (sort le bs) × All Q (sort le bs)
  unfolding sort
  sort-IsAscending [] qs = (tt, tt)
  sort-IsAscending (a ∷ bs) (qa, qs) =
      let (s, qs') = sort-IsAscending bs qs in
      (put-IsAscending a (sort le bs) qa qs' s, All-put le Q a (sort le bs) qa qs')

abbrev pub IsDated : String × Option ℕ → Type 0
IsDated entry = (t : ℕ) × (entry.1 ≡ some t)

pub dated_before_total :
    (a b : String × Option ℕ) → dated_before a b ≡ false → dated_before b a ≡ true
dated_before_total (i, some a) (j, some b) h = ground arith
dated_before_total (i, none) (j, some b) h = refl
dated_before_total (i, some a) (j, none) h = refl
dated_before_total (i, none) (j, none) h = refl

pub dated_before_trans :
    (a b c : String × Option ℕ)
    → IsDated a
    → IsDated b
    → IsDated c
    → dated_before a b ≡ true
    → dated_before b c ≡ true
    → dated_before a c ≡ true
dated_before_trans (i, some a) (j, some b) (k, some c) _ _ _ h h' = ground arith
dated_before_trans (i, none) (j, b) (k, c) (t, dated) _ _ h h' = cc
dated_before_trans (i, some a) (j, none) (k, c) _ (t, dated) _ h h' = cc
dated_before_trans (i, some a) (j, some b) (k, none) _ _ (t, dated) h h' = cc

-- The created time of the proposal, where it has one.
abbrev pub HasTime : Cbor → String × Bytes → Type 0
HasTime cbor entry = (t : ℕ) × (created_time cbor entry.1 ≡ returned (some t))
