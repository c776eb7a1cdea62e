-- ===== src/Governance/KeyRelease.antt =====
-- src/actions/set_key_release_policy.js and set_gcp_key_release_policy.js, which differ in the table
-- only. A stored value is taken for an object, as the action stores one; on any other it throws here.
-- What is stored is what `JSON.parse` makes of the text that `JSON.stringify` has written.
pub mod Contents
mod Identity
pub mod Parts
pub mod Adding
pub mod Removing
pub mod Lists
use depa_kms_gcp_oidc.Prelude.{
  String, Bool, true, false, not, Option, none, some, List, [], ◌∷◌, ◌++◌, map, ◌==◌, any, lookup,
  insert, erase, if◌then◌else◌,
}
use depa_kms_gcp_oidc.Js.{
  Value, undefined, str, arr, obj, Values, nil, cons, elems, Fields, end, field, props, member,
  is_undefined, is_nullish, as_array, strict_eq, includes, to_string, codes, contains, entries,
}
use depa_kms_gcp_oidc.ServiceResult.{
  ErrorMessage, type_error, claim_not_allowed, claim_not_found, operator_is_array,
  stored_claims_unparsable, table_key_missing, policy_type_unsupported, Throws, returned, thrown,
  ◌>>=◌, ◌>>◌, or_throw,
}
use depa_kms_gcp_oidc.Repositories.{Kv}
use depa_kms_gcp_oidc.Governance.Checks.{check_type}

abbrev pub Items : Type 0
Items = List (String × Value)

abbrev pub Table : Type 0
Table = List (String × Option Value)

abbrev pub array : List Value → Values
array [] = nil
array (v ∷ vs) = cons v (array vs)

abbrev pub object : Items → Fields
object [] = end
object ((key, v) ∷ items) = field key v (object items)

-- The names of `CLAIMS`. The types that stand beside them are not looked at.
abbrev pub allowed_claims : List String
allowed_claims =
    "x-ms-attestation-type" ∷ "x-ms-compliance-status" ∷ "x-ms-policy-hash"
    ∷ "vm-configuration-secure-boot" ∷ "vm-configuration-secure-boot-template-id"
    ∷ "vm-configuration-tpm-enabled" ∷ "vm-configuration-vmUniqueId"
    ∷ "x-ms-sevsnpvm-authorkeydigest" ∷ "x-ms-sevsnpvm-bootloader-svn" ∷ "x-ms-sevsnpvm-familyId"
    ∷ "x-ms-sevsnpvm-guestsvn" ∷ "x-ms-sevsnpvm-hostdata" ∷ "x-ms-sevsnpvm-idkeydigest"
    ∷ "x-ms-sevsnpvm-imageId" ∷ "x-ms-sevsnpvm-is-debuggable" ∷ "x-ms-sevsnpvm-launchmeasurement"
    ∷ "x-ms-sevsnpvm-microcode-svn" ∷ "x-ms-sevsnpvm-migration-allowed" ∷ "x-ms-sevsnpvm-reportdata"
    ∷ "x-ms-sevsnpvm-reportid" ∷ "x-ms-sevsnpvm-smt-allowed" ∷ "x-ms-sevsnpvm-snpfw-svn"
    ∷ "x-ms-sevsnpvm-tee-svn" ∷ "x-ms-sevsnpvm-vmpl" ∷ "x-ms-ver" ∷ []

unfoldable pub is_allowed : String → Bool
is_allowed key = any (λ name. name == key) allowed_claims

-- `Array.isArray(item) ? item : [item]`
pub as_list : Value → List Value
unfolding as_array
as_list item = elim (as_array item) [ some vs ↦ vs | none ↦ item ∷ [] ]

-- Each value that is not there yet goes to the end.
pub push_new : List Value → List Value → List Value
unfolding includes
push_new vs [] = vs
push_new vs (i ∷ added) = push_new (if includes vs i then vs else vs ++ i ∷ []) added

-- `String(v)`
abbrev printed : Option String → String
printed none = "null"
printed (some s) = s

-- The values that go to a claim which is there: `includes` is a method of texts too, `push` is not.
pub merge : Value → List Value → Throws Value
unfolding push_new to_string contains
merge old [] = returned old
merge (arr vs) (i ∷ added) = returned (arr (array (push_new (elems vs) (i ∷ added))))
merge (str s) (i ∷ added) =
    let rest = merge (str s) added in
    if contains (codes (printed (to_string i))) (codes s) then rest else thrown type_error
merge _ (i ∷ added) = thrown type_error

-- One round of the loop of `add`; `new Set(item)` keeps the first of equal values.
pub add_claim : Items → String → Value → Throws Items
unfolding is_allowed as_list push_new lookup insert merge
add_claim items key item =
    if not (is_allowed key) then thrown (claim_not_allowed key) else elim (lookup key items) [
      | none ↦ returned (insert key (arr (array (push_new [] (as_list item)))) items)
      | some old ↦ merge old (as_list item) >>= λ merged. returned (insert key merged items)
    ]

-- One round of the loop of `addOperator`.
pub add_bound : Items → String → Value → Throws Items
unfolding is_allowed as_array insert
add_bound items key item =
    if not (is_allowed key) then thrown (claim_not_allowed key) else elim (as_array item) [
      | some _ ↦ thrown (operator_is_array key)
      | none ↦ returned (insert key item items)
    ]

-- `value !== i`
unfoldable pub without : List Value → Value → List Value
unfolding strict_eq
without [] i = []
without (v ∷ vs) i = let rest = without vs i in if strict_eq v i then rest else v ∷ rest

-- A list of values under a key, or no key where the list is empty.
abbrev pub store_list : String → List Value → Items → Items
store_list key [] items = erase key items
store_list key (v ∷ vs) items = insert key (arr (array (v ∷ vs))) items

-- The values that go from a claim; `filter` is a method of arrays only.
abbrev pub filtered : Option Value → Throws (List Value)
filtered (some (arr vs)) = returned (elems vs)
filtered _ = thrown type_error

pub remove_values : String → Items → List Value → Throws Items
unfolding lookup insert erase without
remove_values key items [] = returned items
remove_values key items (i ∷ removed) = filtered (lookup key items) >>= λ vs.
    remove_values key (store_list key (without vs i) items) removed

-- One round of the loop of `remove`.
pub remove_claim : Items → String → Value → Throws Items
unfolding is_allowed as_list lookup remove_values
remove_claim items key item =
    if not (is_allowed key) then thrown (claim_not_allowed key) else elim (lookup key items) [
      | none ↦ thrown (claim_not_found key)
      | some _ ↦ remove_values key items (as_list item)
    ]

-- One round of the loop of `removeOperator`.
pub remove_bound : Items → String → Value → Throws Items
unfolding is_allowed as_array lookup erase
remove_bound items key item =
    if not (is_allowed key) then thrown (claim_not_allowed key) else elim (as_array item) [
      | some _ ↦ thrown (operator_is_array key)
      | none ↦ elim (lookup key items) [
        | none ↦ thrown (claim_not_found key)
        | some _ ↦ returned (erase key items)
      ]
    ]

-- `Object.keys(claims).forEach`, on the items.
abbrev pub each : (Items → String → Value → Throws Items) → Items → Items → Throws Items
each round items [] = returned items
each round items ((key, v) ∷ claims) = round items key v >>= λ items'. each round items' claims

abbrev pub items_of : Value → Throws Items
items_of (obj fs) = returned (props fs)
items_of _ = thrown type_error

-- `JSON.parse` of what is stored under a part, or what is done where the part is missing.
abbrev pub parse_items : (part : String) → Throws Items → Option (Option Value) → Throws Items
parse_items part missing none = missing
parse_items part missing (some none) = thrown (stored_claims_unparsable part)
parse_items part missing (some (some v)) = items_of v

pub read_items : Table → (part : String) → Throws Items → Throws Items
unfolding lookup
read_items table part missing = parse_items part missing (lookup part table)

abbrev pub store_items : Table → (part : String) → Items → Table
store_items table part items = insert part (some (obj (object items))) table

-- What `add`, `addOperator`, `remove` and `removeOperator` have in common.
pub update :
    (Items → String → Value → Throws Items)
    → Throws Items
    → (part : String) → Value
    → Table
    → Throws Table
unfolding read_items entries insert
update round missing part claims table = do
  items ← read_items table part missing
  keys ← or_throw type_error (entries claims)
  items' ← each round items keys
  returned (store_items table part items')

abbrev pub add : (part : String) → Value → Table → Throws Table
add = update add_claim (returned [])

abbrev pub add_operator : (part : String) → Value → Table → Throws Table
add_operator = update add_bound (returned [])

abbrev pub remove : (part : String) → Value → Table → Throws Table
remove part = update remove_claim (thrown (table_key_missing part)) part

abbrev pub remove_operator : (part : String) → Value → Table → Throws Table
remove_operator part = update remove_bound (thrown (table_key_missing part)) part

-- `if (v !== undefined) { ... }`
abbrev pub if_given : Value → (Value → Table → Throws Table) → Table → Throws Table
if_given v change table = if is_undefined v then returned table else change v table

-- One branch of the `switch`, for the functions that it calls.
abbrev pub change_parts :
    (String → Value → Table → Throws Table)
    → (String → Value → Table → Throws Table)
    → Value
    → Table
    → Throws Table
change_parts claims operator args table = do
  table' ← claims "claims" (member args "claims") table
  table'' ← if_given (member args "gte") (operator "gte") table'
  if_given (member args "gt") (operator "gt") table''

-- The `switch`.
pub apply_release_policy : Value → Table → Throws Table
unfolding update add_claim add_bound remove_claim remove_bound is_undefined member strict_eq
apply_release_policy args table =
    let type = member args "type" in
    if strict_eq type (str "add")
    then change_parts add add_operator args table
    else if strict_eq type (str "remove")
    then change_parts remove remove_operator args table
    else thrown (policy_type_unsupported (printed (to_string type)))

-- The whole action: its `validate`, then its `apply`.
unfoldable pub set_release_policy : Value → Table → Throws Table
unfolding is_nullish member check_type apply_release_policy
set_release_policy args table = if is_nullish args then thrown type_error else do
  check_type (member args "type") "string" "undefined"
  check_type (member args "claims") "object" "undefined"
  apply_release_policy args table

unfoldable pub set_key_release_policy : Value → Kv → Throws Kv
unfolding set_release_policy
set_key_release_policy args kv =
    set_release_policy args kv.key_release >>= λ table. returned (record kv { key_release = table })

unfoldable pub set_gcp_key_release_policy : Value → Kv → Throws Kv
unfolding set_release_policy
set_gcp_key_release_policy args kv = set_release_policy args kv.gcp_key_release >>= λ table.
    returned (record kv { gcp_key_release = table })
