-- ===== src/Endpoints/Proposals/Rows.antt =====
-- The map from created times to identifiers against the table that it is made of.
use mathlib.Core.Path.{subst}
use depa_kms_gcp_oidc.Prelude.{
  ℕ, suc, ◌+◌, ◌≡◌, refl, sym, ap, ◌∙◌, inl, inr, String, true, false, Option, List, [], ◌∷◌, ◌==◌,
  All, length, HasUniqueKeys, eq_iff, eq_refl, arith, Bool-cases,
}
use depa_kms_gcp_oidc.Tooling.{Bytes}
use depa_kms_gcp_oidc.ServiceResult.{returned, bind-eq-returned, returned-injective}
use depa_kms_gcp_oidc.Endpoints.Cose.{Cbor, created_time}
use depa_kms_gcp_oidc.Endpoints.Proposals.{
  Times, same_time, set_time, get_time, created_times, keys,
}
use depa_kms_gcp_oidc.Endpoints.Proposals.Newest.{Has, same_time_eq, set_time-All}
use depa_kms_gcp_oidc.Endpoints.Proposals.Kept.{HasOther, set_time-HasOther, get_time-HasOther}
use depa_kms_gcp_oidc.Endpoints.Proposals.Deleting.{HasOwnNames}

-- No two of the proposals have the same created time.
abbrev pub HasOwnTimes : Cbor → List (String × Bytes) → Type 0
HasOwnTimes cbor [] = Unit
HasOwnTimes cbor (p ∷ proposals) =
    Has (λ t. All (Has (λ u. same_time t u ≡ false) cbor) proposals) cbor p
    × HasOwnTimes cbor proposals

-- The time is not in the map.
abbrev pub IsFresh : Times → Option ℕ → Type 0
IsFresh times u = All (λ w. same_time w u ≡ false) (keys times)

pub length-set_time :
    (t : Option ℕ) (id : String) (times : Times)
    → IsFresh times t
    → length (set_time t id times) ≡ suc (length times)
unfolding set_time
length-set_time t id [] fresh = refl
length-set_time t id ((u, old) ∷ times) (other, fresh) =
    rw (other, set_time) (ap suc (length-set_time t id times fresh))

still-IsFresh :
    (cbor : Cbor) (t : Option ℕ) (id : String) (times : Times) (proposals : List (String × Bytes))
    → All (Has (λ u. same_time t u ≡ false) cbor) proposals
    → All (Has (IsFresh times) cbor) proposals
    → All (Has (IsFresh (set_time t id times)) cbor) proposals
still-IsFresh cbor t id times [] others fresh = tt
still-IsFresh cbor t id times (p ∷ proposals) ((u, read, other), others) ((v, read', new), fresh) =
    let same : v ≡ u = returned-injective (sym read' ∙ read) in
    let new' = subst (IsFresh times) same new in
    (
      (u, read, set_time-All (λ w. same_time w u ≡ false) t id times other new'),
      still-IsFresh cbor t id times proposals others fresh,
    )

-- The map has an entry for each proposal.
pub length-created_times :
    (cbor : Cbor) (proposals : List (String × Bytes)) (times : Times) {times' : Times}
    → created_times cbor proposals times ≡ returned times'
    → HasOwnTimes cbor proposals
    → All (Has (IsFresh times) cbor) proposals
    → length times' ≡ length proposals + length times
unfolding created_times
length-created_times cbor [] times h own fresh =
    let same = ap length (returned-injective h) in omega (arith, same)
length-created_times cbor ((id, document) ∷ proposals) times h ((t, read, others), own)
      ((v, read', new), fresh) =
    let (u, found, rest) = bind-eq-returned (created_time cbor document) _ h in
    let same : t ≡ u = returned-injective (sym read ∙ found) in
    let others' = subst (λ w. All (Has (λ x. same_time w x ≡ false) cbor) proposals) same others in
    let new' = subst (IsFresh times) (returned-injective (sym read' ∙ found)) new in
    let later =
      length-created_times cbor proposals (set_time u id times) rest own
        (still-IsFresh cbor u id times proposals others' fresh) in
    omega (arith, later, length-set_time u id times new')

-- No identifier stands twice in the map.
abbrev pub NamesApart : Times → Type 0
NamesApart [] = Unit
NamesApart ((u, id) ∷ times) = HasOther id times × NamesApart times

pub eqb_symm : (s t : String) → (s == t) ≡ false → (t == s) ≡ false
eqb_symm s t h = ground (arith, eq_iff s t, eq_iff t s)

pub set_time-NamesApart :
    (t : Option ℕ) (id : String) (times : Times)
    → HasOther id times
    → NamesApart times
    → NamesApart (set_time t id times)
unfolding set_time
set_time-NamesApart t id [] others apart = (tt, tt)
set_time-NamesApart t id ((u, old) ∷ times) (other, others) (first, apart) =
    elim (Bool-cases (same_time u t)) [
      | inl same ↦ rw (same, set_time) (others, apart)
      | inr distinct ↦
          rw (distinct, set_time)
            (
              set_time-HasOther old id t times (eqb_symm old id other) first,
              set_time-NamesApart t id times others apart,
            )
    ]

others_after :
    (t : Option ℕ) (id : String) (times : Times) (proposals : List (String × Bytes))
    → All (λ p. (p.0 == id) ≡ false) proposals
    → All (λ p. HasOther p.0 times) proposals
    → All (λ p. HasOther p.0 (set_time t id times)) proposals
others_after t id times [] distinct others = tt
others_after t id times ((name, document) ∷ proposals) (other, distinct) (first, others) = (
  set_time-HasOther name id t times (eqb_symm name id other) first,
  others_after t id times proposals distinct others,
)

pub created_times-NamesApart :
    (cbor : Cbor) (proposals : List (String × Bytes)) (times : Times) {times' : Times}
    → created_times cbor proposals times ≡ returned times'
    → HasUniqueKeys proposals
    → All (λ p. HasOther p.0 times) proposals
    → NamesApart times
    → NamesApart times'
unfolding created_times
created_times-NamesApart cbor [] times h unique others apart =
    subst NamesApart (returned-injective h) apart
created_times-NamesApart cbor ((id, document) ∷ proposals) times h (absent, unique) (other, others)
      apart =
    let (t, read, rest) = bind-eq-returned (created_time cbor document) _ h in
    created_times-NamesApart cbor proposals (set_time t id times) rest unique
      (others_after t id times proposals absent others) (set_time-NamesApart t id times other apart)

pub HasOwnNames-of_apart : (times : Times) → NamesApart times → HasOwnNames times
unfolding get_time
HasOwnNames-of_apart [] apart u v name h k = cc
HasOwnNames-of_apart ((w, id) ∷ times) (others, apart) u v name h k =
    elim (Bool-cases (same_time w u)) [
      | inl at_u ↦ elim (Bool-cases (same_time w v)) [
        | inl at_v ↦ subst (λ x. same_time x v ≡ true) (same_time_eq w u at_u) at_v
        | inr past_v ↦
            let found = rw (past_v, get_time) at k in
            let h' = rw (at_u, get_time) at h in
            let apart' = get_time-HasOther id v times others found in
            let same : id ≡ name = cc h' in let e = rw same at apart' in absurd (refuted name e)
      ]
      | inr past_u ↦ elim (Bool-cases (same_time w v)) [
        | inl at_v ↦
            let found = rw (past_u, get_time) at h in
            let k' = rw (at_v, get_time) at k in
            let apart' = get_time-HasOther id u times others found in
            let same : id ≡ name = cc k' in let e = rw same at apart' in absurd (refuted name e)
        | inr past_v ↦
            HasOwnNames-of_apart times apart u v name (rw (past_u, get_time) at h)
              (rw (past_v, get_time) at k)
      ]
    ]
  where
    refuted : (s : String) → (s == s) ≡ false → ⊥
    refuted s e = let e' = eq_refl s in cc

-- What holds of the identifiers of the table holds of those of the map.
pub set_time-names {κ} :
    (Q : String → Type κ) (t : Option ℕ) (id : String) (times : Times)
    → Q id
    → All (λ entry. Q entry.1) times
    → All (λ entry. Q entry.1) (set_time t id times)
unfolding set_time
set_time-names Q t id [] q qs = (q, tt)
set_time-names Q t id ((u, old) ∷ times) q (first, qs) = elim (Bool-cases (same_time u t)) [
  | inl same ↦ rw (same, set_time) (q, qs)
  | inr other ↦ rw (other, set_time) (first, set_time-names Q t id times q qs)
]

pub created_times-names {κ} :
    (Q : String → Type κ) (cbor : Cbor) (proposals : List (String × Bytes)) (times : Times)
    {times' : Times}
    → created_times cbor proposals times ≡ returned times'
    → All (λ p. Q p.0) proposals
    → All (λ entry. Q entry.1) times
    → All (λ entry. Q entry.1) times'
unfolding created_times
created_times-names Q cbor [] times h ps qs =
    subst (All (λ entry. Q entry.1)) (returned-injective h) qs
created_times-names Q cbor ((id, document) ∷ proposals) times h (p, ps) qs =
    let (t, read, rest) = bind-eq-returned (created_time cbor document) _ h in
    created_times-names Q cbor proposals (set_time t id times) rest ps
      (set_time-names Q t id times p qs)
