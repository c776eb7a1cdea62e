-- ===== src/Endpoints/Proposals/Orderly.antt =====
-- Tables in which neither an identifier nor a created time stands twice.
use mathlib.Core.Path.{subst}
use depa_kms_gcp_oidc.Prelude.{
  ℕ, suc, ◌≡◌, sym, ap, ◌∙◌, inl, inr, String, false, Option, none, List, [], ◌∷◌, ◌++◌, ◌==◌, All,
  length, length-append, lookup, insert, insert-absent, erase, erase-All, erase-HasUniqueKeys,
  HasUniqueKeys, arith, Bool-cases,
}
use depa_kms_gcp_oidc.Tooling.{Bytes}
use depa_kms_gcp_oidc.ServiceResult.{returned, returned-injective}
use depa_kms_gcp_oidc.Endpoints.Cose.{Cbor, created_time}
use depa_kms_gcp_oidc.Endpoints.Proposals.{Times, same_time, keep_last}
use depa_kms_gcp_oidc.Endpoints.Proposals.Newest.{Has, keep_last-keeps}
use depa_kms_gcp_oidc.Endpoints.Proposals.Kept.{lookup-none-HasOther}
use depa_kms_gcp_oidc.Endpoints.Proposals.Rows.{HasOwnTimes, eqb_symm}

-- Neither an identifier nor a created time stands twice in the table.
pub record IsOrderly (cbor : Cbor) (proposals : List (String × Bytes)) : Type 0 where
  pub own_names : HasUniqueKeys proposals
  pub own_times : HasOwnTimes cbor proposals

-- A proposal that is new to the table, by its identifier and by its created time.
pub record IsNew (cbor : Cbor) (id : String) (t : Option ℕ) (proposals : List (String × Bytes))
    : Type 0 where
  pub new_name : lookup id proposals ≡ none
  pub new_time : All (Has (λ u. same_time u t ≡ false) cbor) proposals

erase-HasOwnTimes :
    (cbor : Cbor) (id : String) (proposals : List (String × Bytes))
    → HasOwnTimes cbor proposals
    → HasOwnTimes cbor (erase id proposals)
unfolding erase
erase-HasOwnTimes cbor id [] own = tt
erase-HasOwnTimes cbor id ((name, document) ∷ proposals) ((t, read, others), own) =
    let later = erase-HasOwnTimes cbor id proposals own in
    elim (Bool-cases (name == id)) [
      | inl same ↦ rw (same, erase) later
      | inr other ↦ rw (other, erase) ((t, read, erase-All _ id proposals others), later)
    ]

pub keep_last-IsOrderly :
    (cbor : Cbor) (times : Times) (proposals : List (String × Bytes))
    → IsOrderly cbor proposals
    → IsOrderly cbor (keep_last times proposals)
keep_last-IsOrderly cbor times proposals o =
    keep_last-keeps (IsOrderly cbor)
      (λ id ps o'. record {
        own_names = erase-HasUniqueKeys id ps o'.own_names;
        own_times = erase-HasOwnTimes cbor id ps o'.own_times;
      })
      times proposals o

All-last {ℓ κ} :
    {A : Type ℓ} (P : A → Type κ) (xs : List A) (x : A) → All P xs → P x → All P (xs ++ (x ∷ []))
All-last P [] x ps p = (p, tt)
All-last P (y ∷ ys) x (q, ps) p = (q, All-last P ys x ps p)

last-HasUniqueKeys :
    (id : String) (document : Bytes) (proposals : List (String × Bytes))
    → All (λ p. (p.0 == id) ≡ false) proposals
    → HasUniqueKeys proposals
    → HasUniqueKeys (proposals ++ ((id, document) ∷ []))
last-HasUniqueKeys id document [] new unique = (tt, tt)
last-HasUniqueKeys id document ((name, old) ∷ proposals) (other, new) (absent, unique) = (
  All-last _ proposals (id, document) absent (eqb_symm name id other),
  last-HasUniqueKeys id document proposals new unique,
)

last-HasOwnTimes :
    (cbor : Cbor) (id : String) (document : Bytes) (t : Option ℕ)
    (proposals : List (String × Bytes))
    → created_time cbor document ≡ returned t
    → All (Has (λ u. same_time u t ≡ false) cbor) proposals
    → HasOwnTimes cbor proposals
    → HasOwnTimes cbor (proposals ++ ((id, document) ∷ []))
last-HasOwnTimes cbor id document t [] dated new own = ((t, dated, tt), tt)
last-HasOwnTimes cbor id document t (p ∷ proposals) dated ((v, read', other), new)
      ((u, read, others), own) =
    let same : v ≡ u = returned-injective (sym read' ∙ read) in
    let other' = subst (λ w. same_time w t ≡ false) same other in
    (
      (u, read, All-last _ proposals (id, document) others (t, dated, other')),
      last-HasOwnTimes cbor id document t proposals dated new own,
    )

module _ (cbor : Cbor) (id : String) (document : Bytes) (t : Option ℕ)
    (proposals : List (String × Bytes)) (dated : created_time cbor document ≡ returned t)
    (new : IsNew cbor id t proposals) (orderly : IsOrderly cbor proposals) where
  pub insert-IsOrderly : IsOrderly cbor (insert id document proposals)
  insert-IsOrderly =
      subst (IsOrderly cbor) (sym (insert-absent id document proposals new.new_name)) (record {
        own_names =
            last-HasUniqueKeys id document proposals
              (lookup-none-HasOther id proposals new.new_name) orderly.own_names;
        own_times =
            last-HasOwnTimes cbor id document t proposals dated new.new_time orderly.own_times;
      })

  pub length-inserted : length (insert id document proposals) ≡ suc (length proposals)
  length-inserted =
      let longer = length-append proposals ((id, document) ∷ []) in
      ap length (insert-absent id document proposals new.new_name) ∙ omega (arith, longer)
