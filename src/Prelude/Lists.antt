-- ===== src/Prelude/Lists.antt =====
-- Lists measured by native numbers, predicates by recursion, and association lists.
use Prim.Native.Nat.{ℕ, zero, suc, ◌+◌}
use Prim.Native.String.{String}
use mathlib.Core.Path.{◌≡◌, refl, ap}
use mathlib.Core.Bool.{Bool, false, ◌||◌}
use mathlib.Core.Option.{Option, none, some}
use mathlib.Core.List.{List, [], ◌∷◌, ◌++◌}
use native.Mathlib.Omega.{arith}
use text.Mathlib.Text.{◌==◌}
use text.Mathlib.TextEquality.{eq_iff}
use depa_kms_gcp_oidc.Prelude.Tests.{if◌then◌else◌, Bool-cases}
use mathlib.Core.Logic.{inl, inr}

module _ {ℓ} {A : Type ℓ} where
  abbrev pub length : List A → ℕ
  length [] = 0
  length (x ∷ xs) = suc (length xs)

  abbrev pub replicate : ℕ → A → List A
  replicate zero a = []
  replicate (suc n) a = a ∷ replicate n a

  -- `Array.prototype.some`
  abbrev pub any : (A → Bool) → List A → Bool
  any p [] = false
  any p (x ∷ xs) = p x || any p xs

  pub length-append : (xs ys : List A) → length (xs ++ ys) ≡ length xs + length ys
  length-append [] ys = omega arith
  length-append (x ∷ xs) ys = omega (arith, length-append xs ys)

module _ {ℓ κ} {A : Type ℓ} (P : A → Type κ) where
  abbrev pub All : List A → Type κ
  All [] = Unit
  All (x ∷ xs) = P x × All xs

pub All-intro {ℓ κ} : {A : Type ℓ} {P : A → Type κ} → ((a : A) → P a) → (xs : List A) → All P xs
All-intro f [] = tt
All-intro f (x ∷ xs) = (f x, All-intro f xs)

pub All-weaken {ℓ κ ι} :
    {A : Type ℓ} {P : A → Type κ} {Q : A → Type ι}
    → ((a : A) → P a → Q a)
    → (xs : List A) → All P xs
    → All Q xs
All-weaken f [] ps = tt
All-weaken f (x ∷ xs) (p, ps) = (f x p, All-weaken f xs ps)

-- A table with text keys.
module _ {ℓ} {V : Type ℓ} where
  unfoldable pub lookup : String → List (String × V) → Option V
  lookup key [] = none
  lookup key ((name, value) ∷ table) = if name == key then some value else lookup key table

  -- An assignment keeps the place of a key that is there, and adds a new key at the end.
  unfoldable pub insert : String → V → List (String × V) → List (String × V)
  insert key new [] = (key, new) ∷ []
  insert key new ((name, value) ∷ table) =
      if name == key then (key, new) ∷ table else (name, value) ∷ insert key new table

  -- A deletion. The keys of a table are distinct, so there is one entry to go at most.
  unfoldable pub erase : String → List (String × V) → List (String × V)
  erase key [] = []
  erase key ((name, value) ∷ table) =
      let rest = erase key table in if name == key then rest else (name, value) ∷ rest

  pub lookup-insert :
      (key asked : String) (new : V) (table : List (String × V))
      → lookup asked (insert key new table)
        ≡ (if key == asked then some new else lookup asked table)
  unfolding lookup insert
  lookup-insert key asked new [] = refl
  lookup-insert key asked new ((name, value) ∷ table) =
      let later = lookup-insert key asked new table in
      ground (arith, eq_iff name key, eq_iff name asked, eq_iff key asked)

  pub lookup-erase :
      (key asked : String) (table : List (String × V))
      → lookup asked (erase key table) ≡ (if key == asked then none else lookup asked table)
  unfolding lookup erase
  lookup-erase key asked [] = ground arith
  lookup-erase key asked ((name, value) ∷ table) =
      let later = lookup-erase key asked table in
      ground (arith, eq_iff name key, eq_iff name asked, eq_iff key asked)

  -- No key stands twice in the table.
  abbrev pub HasUniqueKeys : List (String × V) → Type 0
  HasUniqueKeys [] = Unit
  HasUniqueKeys ((key, _) ∷ table) =
      All (λ entry. (entry.0 == key) ≡ false) table × HasUniqueKeys table

  pub erase-All {κ} :
      (P : String × V → Type κ) (key : String) (table : List (String × V))
      → All P table
      → All P (erase key table)
  unfolding erase
  erase-All P key [] ps = tt
  erase-All P key ((name, value) ∷ table) (p, ps) = elim (Bool-cases (name == key)) [
    | inl same ↦ rw (same, erase) (erase-All P key table ps)
    | inr other ↦ rw (other, erase) (p, erase-All P key table ps)
  ]

  pub insert-All {κ} :
      (P : String × V → Type κ) (key : String) (new : V) (table : List (String × V))
      → P (key, new)
      → All P table
      → All P (insert key new table)
  unfolding insert
  insert-All P key new [] p ps = (p, tt)
  insert-All P key new ((name, value) ∷ table) p (q, ps) = elim (Bool-cases (name == key)) [
    | inl same ↦ rw (same, insert) (p, ps)
    | inr other ↦ rw (other, insert) (q, insert-All P key new table p ps)
  ]

  pub erase-HasUniqueKeys :
      (key : String) (table : List (String × V))
      → HasUniqueKeys table
      → HasUniqueKeys (erase key table)
  unfolding erase
  erase-HasUniqueKeys key [] unique = tt
  erase-HasUniqueKeys key ((name, value) ∷ table) (absent, unique) =
      let later = erase-HasUniqueKeys key table unique in
      elim (Bool-cases (name == key)) [
        | inl same ↦ rw (same, erase) later
        | inr other ↦ rw (other, erase) (erase-All _ key table absent, later)
      ]

  length-erase_absent :
      (key : String) (table : List (String × V))
      → All (λ entry. (entry.0 == key) ≡ false) table
      → length (erase key table) ≡ length table
  unfolding erase
  length-erase_absent key [] absent = refl
  length-erase_absent key ((name, value) ∷ table) (other, absent) =
      rw (other, erase) (ap suc (length-erase_absent key table absent))

  pub length-erase :
      (key : String) (table : List (String × V)) {value : V}
      → HasUniqueKeys table
      → lookup key table ≡ some value
      → suc (length (erase key table)) ≡ length table
  unfolding erase lookup
  length-erase key [] unique found = cc
  length-erase key ((name, value) ∷ table) (absent, unique) found =
      elim (Bool-cases (name == key)) [
        | inl same ↦
            let absent' = rw ((eq_iff name key).0 same) at absent in
            rw (same, erase) (ap suc (length-erase_absent key table absent'))
        | inr other ↦
            rw (other, erase) (ap suc (length-erase key table unique (rw (other, lookup) at found)))
      ]

  -- Where the key is not there, an assignment puts it at the end.
  pub insert-absent :
      (key : String) (new : V) (table : List (String × V))
      → lookup key table ≡ none
      → insert key new table ≡ table ++ ((key, new) ∷ [])
  unfolding insert lookup
  insert-absent key new [] h = refl
  insert-absent key new ((name, value) ∷ table) h = elim (Bool-cases (name == key)) [
    | inl same ↦ let h' = rw (same, lookup) at h in cc
    | inr other ↦
        rw (other, insert)
          (ap (λ t. (name, value) ∷ t) (insert-absent key new table (rw (other, lookup) at h)))
  ]
