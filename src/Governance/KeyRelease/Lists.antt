-- ===== src/Governance/KeyRelease/Lists.antt =====
-- src/actions/set_key_release_policy.js: that the stored claims stay lists, whatever the action does.
use mathlib.Core.Path.{subst}
use depa_kms_gcp_oidc.Prelude.{
  ◌≡◌, refl, sym, ap, ◌∙◌, String, List, [], ◌∷◌, ◌==◌, lookup, erase, lookup-erase, Bool-cases,
  Option-cases, inl, inr,
}
use depa_kms_gcp_oidc.Js.{Value, str, member, strict_eq}
use depa_kms_gcp_oidc.ServiceResult.{
  returned, thrown, table_key_missing, bind-eq-returned, returned-injective,
}
use depa_kms_gcp_oidc.Governance.KeyRelease.{
  Items, Table, array, as_list, without, store_list, filtered, remove_values, is_allowed,
  remove_claim, remove_bound, add_bound, each, add, add_operator, remove, remove_operator,
  set_release_policy, apply_release_policy,
}
use depa_kms_gcp_oidc.Governance.KeyRelease.Contents.{AreLists, AreLists-insert}
use depa_kms_gcp_oidc.Governance.KeyRelease.Parts.{
  part_items, part_items-store, update-eq-returned, change_parts-claims, update-LeavesClaims,
  set_release_policy-checked,
}
use depa_kms_gcp_oidc.Governance.KeyRelease.Adding.{add-listed}

AreLists-erase : (items : Items) (key : String) → AreLists items → AreLists (erase key items)
AreLists-erase items key are k v there =
    let found = sym (lookup-erase key k items) ∙ there in
    elim (Bool-cases (key == k)) [
      | inl same ↦ let h = rw same at found in cc
      | inr other ↦ are k v (rw other at found)
    ]

AreLists-store_list :
    (key : String) (vs : List Value) (items : Items)
    → AreLists items
    → AreLists (store_list key vs items)
AreLists-store_list key [] items are = AreLists-erase items key are
AreLists-store_list key (v ∷ vs) items are = AreLists-insert items key (array (v ∷ vs)) are

remove_values-AreLists :
    (key : String) (items : Items) (removed : List Value) {items' : Items}
    → AreLists items
    → remove_values key items removed ≡ returned items'
    → AreLists items'
unfolding remove_values
remove_values-AreLists key items [] are h = subst AreLists (returned-injective h) are
remove_values-AreLists key items (i ∷ removed) are h =
    let (vs, found, rest) = bind-eq-returned (filtered (lookup key items)) _ h in
    remove_values-AreLists key (store_list key (without vs i) items) removed
      (AreLists-store_list key (without vs i) items are) rest

remove_claim-AreLists :
    (items : Items) (key : String) (item : Value) {items' : Items}
    → AreLists items
    → remove_claim items key item ≡ returned items'
    → AreLists items'
unfolding remove_claim
remove_claim-AreLists items key item are h = elim (Bool-cases (is_allowed key)) [
  | inr refused ↦ let h' = rw refused at h in cc
  | inl allowed ↦ elim (Option-cases (lookup key items)) [
    | inl absent ↦ let h' = rw (allowed, absent) at h in cc
    | inr (old, there) ↦
        remove_values-AreLists key items (as_list item) are (rw (allowed, there) at h)
  ]
]

each-AreLists :
    (items claims : Items) {items' : Items}
    → AreLists items
    → each remove_claim items claims ≡ returned items'
    → AreLists items'
each-AreLists items [] are h = subst AreLists (returned-injective h) are
each-AreLists items ((key, item) ∷ claims) are h =
    let (items1, first, rest) = bind-eq-returned (remove_claim items key item) _ h in
    each-AreLists items1 claims (remove_claim-AreLists items key item are first) rest

remove-AreLists :
    (claims : Value) (table : Table) {table' : Table}
    → AreLists (part_items table "claims")
    → remove "claims" claims table ≡ returned table'
    → AreLists (part_items table' "claims")
remove-AreLists claims table {table'} are h =
    let u =
      update-eq-returned remove_claim (thrown (table_key_missing "claims")) "claims" claims table
        table' tt h in
    let same =
      ap (λ t. part_items t "claims") u.stored ∙ part_items-store table "claims" "claims" u.items in
    subst AreLists (sym same) (each-AreLists (part_items table "claims") u.keys are u.changed)

-- Whatever its type, an action that passes leaves the claims with lists, if they had lists.
pub set_release_policy-AreLists :
    (args : Value) (table : Table) {table' : Table}
    → AreLists (part_items table "claims")
    → set_release_policy args table ≡ returned table'
    → AreLists (part_items table' "claims")
unfolding apply_release_policy
set_release_policy-AreLists args table are h =
    let h' = set_release_policy-checked args table h in
    elim (Bool-cases (strict_eq (member args "type") (str "add"))) [
      | inl adds ↦
          let (table1, added, same) =
            change_parts-claims add add_operator args table
              (update-LeavesClaims add_bound (λ _. returned []) (λ _. refl)) (rw adds at h') in
          subst AreLists (sym same) (add-listed (member args "claims") table are added).0
      | inr other ↦ elim (Bool-cases (strict_eq (member args "type") (str "remove"))) [
        | inl removes ↦
            let (table1, removed, same) =
              change_parts-claims remove remove_operator args table
                (update-LeavesClaims remove_bound (λ part. thrown (table_key_missing part))
                  (λ _. tt))
                (rw (other, removes) at h') in
            subst AreLists (sym same) (remove-AreLists (member args "claims") table are removed)
        | inr neither ↦ let refused = rw (other, neither) at h' in cc
      ]
    ]
