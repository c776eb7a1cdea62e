-- ===== src/Governance/KeyRelease/Adding.antt =====
-- src/actions/set_key_release_policy.js: `add`.
use mathlib.Core.Path.{subst}
use depa_kms_gcp_oidc.Prelude.{
  ◌≡◌, refl, sym, ap, ◌∙◌, String, false, ◌&&◌, ◌||◌, some, List, [], ◌∷◌, ◌==◌, lookup, insert,
  Bool-cases, Option-cases, inl, inr, eq_iff, arith,
}
use depa_kms_gcp_oidc.Js.{Value, Values, str, arr, member, elems, includes, undefined}
use depa_kms_gcp_oidc.ServiceResult.{returned, bind-eq-returned}
use depa_kms_gcp_oidc.Governance.KeyRelease.Parts.{
  part_items, part_items-store, update-eq-returned, change_parts-claims, update-LeavesClaims,
  apply_release_policy-add, set_release_policy-checked,
}
use depa_kms_gcp_oidc.Governance.KeyRelease.{
  add, add_operator, add_bound, set_release_policy, Items, Table, array, as_list, push_new, merge,
  is_allowed, add_claim, each,
}
use depa_kms_gcp_oidc.Governance.KeyRelease.Contents.{
  lists, listed, listed-eq, named, asked, asked-eq, AreLists, AreLists-insert, lists-array,
  listed-insert, includes-push_new,
}

-- What a value of a claim and the values that go there have become.
Joins : (old : Value) (added : List Value) (new : Value) → Type 0
Joins old added new =
    ((vs : Values) × (new ≡ arr vs))
    × ((sought : Value) → lists new sought ≡ (lists old sought || includes added sought))

merge-Joins :
    (vs : Values) (added : List Value) {new : Value}
    → merge (arr vs) added ≡ returned new
    → Joins (arr vs) added new
unfolding merge Joins includes
merge-Joins vs [] {new} h =
    let stored : new ≡ arr vs = cc h in
    (
      (vs, stored),
      λ sought.
          subst (λ v. lists v sought ≡ (lists (arr vs) sought || false)) (sym stored)
            (ground arith),
    )
merge-Joins vs (i ∷ added) {new} h =
    let all = push_new (elems vs) (i ∷ added) in
    let stored : new ≡ arr (array all) = cc h in
    (
      (array all, stored),
      λ sought.
          ap (λ v. lists v sought) stored
          ∙ lists-array all sought
          ∙ includes-push_new (elems vs) (i ∷ added) sought,
    )

-- The claim joins what it lists with the arguments, and no other changes.
IsAdded : (items : Items) (key : String) (added : List Value) (items' : Items) → Type 0
IsAdded items key added items' =
    (k : String) (sought : Value)
    → listed items' k sought ≡ (listed items k sought || ((key == k) && includes added sought))

IsAdded-insert :
    (items : Items) (key : String) (old new : Value) (added : List Value)
    → ((sought : Value) → listed items key sought ≡ lists old sought)
    → Joins old added new
    → IsAdded items key added (insert key new items)
unfolding IsAdded Joins
IsAdded-insert items key old new added was joins k sought =
    listed-insert items key k sought new ∙ elim (Bool-cases (key == k)) [
      | inr other ↦ (rw other (ground arith))
      | inl same ↦
          let here =
            subst (λ x. listed items x sought ≡ lists old sought) ((eq_iff key k).0 same)
              (was sought) in
          rw same (joins.1 sought ∙ ap (λ b. b || includes added sought) (sym here))
    ]

add_claim-listed :
    (items : Items) (key : String) (item : Value) {items' : Items}
    → AreLists items
    → add_claim items key item ≡ returned items'
    → AreLists items' × IsAdded items key (as_list item) items'
unfolding add_claim Joins
add_claim-listed items key item {items'} are h = elim (Bool-cases (is_allowed key)) [
  | inr refused ↦ let h' = rw refused at h in cc
  | inl allowed ↦ elim (Option-cases (lookup key items)) [
    | inl absent ↦
        let h' = rw (allowed, absent) at h in
        let values = as_list item in
        let new = arr (array (push_new [] values)) in
        let done : insert key new items ≡ items' = cc h' in
        let joins : Joins undefined values new = (
          (array (push_new [] values), refl),
          λ sought. lists-array (push_new [] values) sought ∙ includes-push_new [] values sought,
        ) in
        subst (λ i. AreLists i × IsAdded items key values i) done
          (
            AreLists-insert items key (array (push_new [] values)) are,
            IsAdded-insert items key undefined new values
                (λ sought. listed-eq items key sought absent) joins,
          )
    | inr (old, there) ↦
        let h' = rw (allowed, there) at h in
        let (merged, joined, stored) = bind-eq-returned (merge old (as_list item)) _ h' in
        let (vs, list) = are key old there in
        let joins =
          merge-Joins vs (as_list item)
            (subst (λ o. merge o (as_list item) ≡ returned merged) list joined) in
        let ((ws, list'), _) = joins in
        let done : insert key merged items ≡ items' = cc stored in
        subst (λ i. AreLists i × IsAdded items key (as_list item) i) done
          (
            subst (λ m. AreLists (insert key m items)) (sym list')
                (AreLists-insert items key ws are),
            IsAdded-insert items key (arr vs) merged (as_list item)
                (λ sought. listed-eq items key sought (there ∙ ap some list)) joins,
          )
  ]
]

each-listed :
    (items claims : Items) {items' : Items}
    → AreLists items
    → each add_claim items claims ≡ returned items'
    → AreLists items'
      × ((k : String) (sought : Value)
          → listed items' k sought ≡ (listed items k sought || named claims k sought))
unfolding IsAdded named
each-listed items [] {items'} are h =
    let done : items ≡ items' = cc h in
    (
      subst AreLists done are,
      λ k sought.
          subst (λ i. listed i k sought ≡ (listed items k sought || false)) done (ground arith),
    )
each-listed items ((key, item) ∷ claims) are h =
    let (items1, first, rest) = bind-eq-returned (add_claim items key item) _ h in
    let (are1, added) = add_claim-listed items key item are first in
    let (are', later) = each-listed items1 claims are1 rest in
    (
      are',
      λ k sought.
          later k sought ∙ ap (λ b. b || named claims k sought) (added k sought) ∙ ground arith,
    )

-- `add` on a table whose claims have lists keeps that, and each list gains the values that it asks for.
pub add-listed :
    (claims : Value) (table : Table) {table' : Table}
    → AreLists (part_items table "claims")
    → add "claims" claims table ≡ returned table'
    → AreLists (part_items table' "claims")
      × ((key : String) (sought : Value)
          → listed (part_items table' "claims") key sought
            ≡ (listed (part_items table "claims") key sought || asked claims key sought))
add-listed claims table {table'} are h =
    let u = update-eq-returned add_claim (returned []) "claims" claims table table' refl h in
    let (are', added) = each-listed (part_items table "claims") u.keys are u.changed in
    let same =
      ap (λ t. part_items t "claims") u.stored ∙ part_items-store table "claims" "claims" u.items in
    (
      subst AreLists (sym same) are',
      λ key sought.
          ap (λ i. listed i key sought) same
          ∙ added key sought
          ∙ ap (λ b. listed (part_items table "claims") key sought || b)
              (sym (asked-eq claims key sought u.given)),
    )

-- An action of type "add" that passes on a table whose claims have lists leaves lists, and each list
-- then holds, as `===` compares, exactly the values that it held and those that the action asks for.
pub set_release_policy-add :
    (args : Value) (table : Table) {table' : Table}
    → AreLists (part_items table "claims")
    → member args "type" ≡ str "add"
    → set_release_policy args table ≡ returned table'
    → AreLists (part_items table' "claims")
      × ((key : String) (sought : Value)
          → listed (part_items table' "claims") key sought ≡ (
              listed (part_items table "claims") key sought
              || asked (member args "claims") key sought))
set_release_policy-add args table {table'} are type h =
    let h' = set_release_policy-checked args table h in
    let (table1, added, same) =
      change_parts-claims add add_operator args table
        (update-LeavesClaims add_bound (λ _. returned []) (λ _. refl))
        (sym (apply_release_policy-add args table type) ∙ h') in
    let (are', later) = add-listed (member args "claims") table are added in
    (
      subst AreLists (sym same) are',
      λ key sought. ap (λ i. listed i key sought) same ∙ later key sought,
    )
