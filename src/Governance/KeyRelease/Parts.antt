-- ===== src/Governance/KeyRelease/Parts.antt =====
-- src/actions/set_key_release_policy.js: the parts of the table, which the actions change one by one.
use depa_kms_gcp_oidc.Governance.KeyRelease.Contents.{props-object}
use depa_kms_gcp_oidc.Prelude.{
  ◌≡◌, refl, sym, ap, ◌∙◌, String, Bool, true, false, Option, none, some, [], ◌==◌, lookup,
  lookup-insert, inl, inr, Bool-cases, if◌then◌else◌,
}
use depa_kms_gcp_oidc.Js.{
  strict_eq, Value, str, arr, props, entries, strict_eq, undefined, null, bool, num, obj, member,
  is_undefined, is_nullish,
}
use depa_kms_gcp_oidc.ServiceResult.{
  type_error, Throws, returned, thrown, or_throw, bind-eq-returned, or_throw-eq-returned,
}
use depa_kms_gcp_oidc.Governance.Checks.{check_type}
use depa_kms_gcp_oidc.Governance.KeyRelease.{
  add, remove, add_operator, remove_operator, Items, Table, object, parse_items, read_items,
  store_items, if_given, change_parts, add, remove, add_operator, remove_operator,
  apply_release_policy, set_release_policy, each, update,
}

-- The items of a part of the table, none where it is missing.
abbrev pub stored_items : Option (Option Value) → Items
stored_items (some (some (obj fs))) = props fs
stored_items _ = []

abbrev pub part_items : Table → String → Items
unfolding lookup
part_items table part = stored_items (lookup part table)

pub part_items-store :
    (table : Table) (part other : String) (items : Items)
    → part_items (store_items table part items) other
      ≡ (if part == other then items else part_items table other)
unfolding part_items lookup
part_items-store table part other items =
    ap stored_items (lookup-insert part other (some (obj (object items))) table)
    ∙ go (part == other)
  where
    go :
        (same : Bool)
        → stored_items (if same then some (some (obj (object items))) else lookup other table)
          ≡ (if same then items else part_items table other)
    go true = props-object items
    go false = refl

-- What a missing part is taken for: no items, or an exception.
abbrev pub IsEmptyOrThrown : Throws Items → Type 0
IsEmptyOrThrown (returned items) = items ≡ []
IsEmptyOrThrown (thrown e) = Unit

empty_of_returned :
    (m : Throws Items) {items : Items} → IsEmptyOrThrown m → m ≡ returned items → items ≡ []
empty_of_returned (returned items) empty h = cc
empty_of_returned (thrown e) empty h = cc

stored_items-parse :
    (part : String) (missing : Throws Items) (stored : Option (Option Value)) {items : Items}
    → IsEmptyOrThrown missing
    → parse_items part missing stored ≡ returned items
    → stored_items stored ≡ items
stored_items-parse part missing none empty h = sym (empty_of_returned missing empty h)
stored_items-parse part missing (some none) empty h = cc
stored_items-parse part missing (some (some (obj fs))) empty h = cc
stored_items-parse part missing (some (some undefined)) empty h = cc
stored_items-parse part missing (some (some null)) empty h = cc
stored_items-parse part missing (some (some (bool b))) empty h = cc
stored_items-parse part missing (some (some (num n))) empty h = cc
stored_items-parse part missing (some (some (str s))) empty h = cc
stored_items-parse part missing (some (some (arr vs))) empty h = cc

pub part_items-read :
    (table : Table) (part : String) (missing : Throws Items) {items : Items}
    → IsEmptyOrThrown missing
    → read_items table part missing ≡ returned items
    → part_items table part ≡ items
unfolding read_items
part_items-read table part missing = stored_items-parse part missing (lookup part table)

-- What a change of one part has come through.
pub record Updated (round : Items → String → Value → Throws Items) (part : String) (claims : Value)
    (table table' : Table) : Type 0 where
  pub keys : Items
  pub items : Items
  pub given : entries claims ≡ some keys
  pub changed : each round (part_items table part) keys ≡ returned items
  pub stored : table' ≡ store_items table part items

pub update-eq-returned :
    (round : Items → String → Value → Throws Items) (missing : Throws Items) (part : String)
    (claims : Value) (table table' : Table)
    → IsEmptyOrThrown missing
    → update round missing part claims table ≡ returned table'
    → Updated round part claims table table'
unfolding update
update-eq-returned round missing part claims table table' empty h =
    let (items, read, h1) = bind-eq-returned (read_items table part missing) _ h in
    let (keys, given, h2) = bind-eq-returned (or_throw type_error (entries claims)) _ h1 in
    let (items', changed, h3) = bind-eq-returned (each round items keys) _ h2 in
    let same = part_items-read table part missing empty read in
    record {
      keys = keys;
      items = items';
      given = or_throw-eq-returned type_error (entries claims) given;
      changed = ap (λ i. each round i keys) same ∙ changed;
      stored = cc h3;
    }

-- A function that stores nothing under "claims".
abbrev pub LeavesClaims : (String → Value → Table → Throws Table) → Type 0
LeavesClaims operator =
    (part : String) (v : Value) (table table' : Table)
    → (part == "claims") ≡ false
    → operator part v table ≡ returned table'
    → part_items table' "claims" ≡ part_items table "claims"

pub update-LeavesClaims :
    (round : Items → String → Value → Throws Items) (missing : String → Throws Items)
    → ((part : String) → IsEmptyOrThrown (missing part))
    → LeavesClaims (λ part. update round (missing part) part)
update-LeavesClaims round missing empty part v table table' other h =
    let u = update-eq-returned round (missing part) part v table table' (empty part) h in
    ap (λ t. part_items t "claims") u.stored
    ∙ part_items-store table part "claims" u.items
    ∙ rw other refl

if_given-claims :
    (operator : String → Value → Table → Throws Table) (part : String) (v : Value) (table : Table)
    {table' : Table}
    → LeavesClaims operator
    → (part == "claims") ≡ false
    → if_given v (operator part) table ≡ returned table'
    → part_items table' "claims" ≡ part_items table "claims"
if_given-claims operator part v table {table'} leaves other h = elim (Bool-cases (is_undefined v)) [
  | inl missing ↦ let h' = rw missing at h in ap (λ t. part_items t "claims") (sym (cc h'))
  | inr given ↦ leaves part v table table' other (rw given at h)
]

pub change_parts-claims :
    (claims operator : String → Value → Table → Throws Table) (args : Value) (table : Table)
    {table' : Table}
    → LeavesClaims operator
    → change_parts claims operator args table ≡ returned table'
    → (table1 : Table) × (claims "claims" (member args "claims") table ≡ returned table1)
      × (part_items table' "claims" ≡ part_items table1 "claims")
change_parts-claims claims operator args table {table'} leaves h =
    let (table1, first, h1) = bind-eq-returned (claims "claims" (member args "claims") table) _ h in
    let (table2, second, third) =
      bind-eq-returned (if_given (member args "gte") (operator "gte") table1) _ h1 in
    (
      table1,
      first,
      if_given-claims operator "gt" (member args "gt") table2 leaves refl third
          ∙ if_given-claims operator "gte" (member args "gte") table1 leaves refl second,
    )

-- What the checks before the `switch` let through.
pub set_release_policy-checked :
    (args : Value) (table : Table) {table' : Table}
    → set_release_policy args table ≡ returned table'
    → apply_release_policy args table ≡ returned table'
unfolding set_release_policy
set_release_policy-checked args table h = elim (Bool-cases (is_nullish args)) [
  | inl none_given ↦ let h' = rw none_given at h in cc
  | inr given ↦
      let h' = rw given at h in
      let (_, _, h1) =
        bind-eq-returned (check_type (member args "type") "string" "undefined") _ h' in
      let (_, _, h2) =
        bind-eq-returned (check_type (member args "claims") "object" "undefined") _ h1 in
      h2
]

module _ (args : Value) (table : Table) where
  pub apply_release_policy-add :
      member args "type" ≡ str "add"
      → apply_release_policy args table ≡ change_parts add add_operator args table
  unfolding apply_release_policy strict_eq
  apply_release_policy-add type = rw type refl

  pub apply_release_policy-remove :
      member args "type" ≡ str "remove"
      → apply_release_policy args table ≡ change_parts remove remove_operator args table
  unfolding apply_release_policy strict_eq
  apply_release_policy-remove type = rw type refl
