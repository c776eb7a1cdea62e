-- ===== src/Governance/KeyRelease/Removing.antt =====
-- src/actions/set_key_release_policy.js: `remove`.
use mathlib.Core.Path.{subst}
use depa_kms_gcp_oidc.Prelude.{
  ◌≡◌, refl, sym, ap, ◌∙◌, String, true, false, not, ◌&&◌, Option, none, some, List, [], ◌∷◌, ◌==◌,
  lookup, erase, lookup-erase, eq_refl, Bool-cases, Option-cases, inl, inr, eq_iff, arith,
  if◌then◌else◌,
}
use depa_kms_gcp_oidc.Js.{
  Value, Values, cons, str, arr, member, elems, as_array, includes, strict_eq, undefined, null,
  bool, num, obj,
}
use depa_kms_gcp_oidc.ServiceResult.{
  type_error, returned, thrown, table_key_missing, ◌>>=◌, bind-eq-returned,
}
use depa_kms_gcp_oidc.Governance.KeyRelease.{
  Items, Table, array, as_list, without, store_list, filtered, remove_values, is_allowed,
  remove_claim, remove_bound, each, remove, remove_operator, set_release_policy,
}
use depa_kms_gcp_oidc.Governance.KeyRelease.Contents.{
  listed, listed-eq, listed-insert, listed-erase, lists-arr, lists-array, includes-without, named,
  asked, asked-eq,
}
use depa_kms_gcp_oidc.Governance.KeyRelease.Parts.{
  part_items, part_items-store, update-eq-returned, change_parts-claims, update-LeavesClaims,
  apply_release_policy-remove, set_release_policy-checked,
}

-- The claim loses the arguments, and no other changes.
IsRemoved : (items : Items) (key : String) (removed : List Value) (items' : Items) → Type 0
IsRemoved items key removed items' =
    (k : String) (sought : Value)
    → listed items' k sought
      ≡ (listed items k sought && not ((key == k) && includes removed sought))

listed-filtered :
    (items : Items) (key : String) (sought : Value) (o : Option Value) {vs : List Value}
    → lookup key items ≡ o
    → filtered o ≡ returned vs
    → listed items key sought ≡ includes vs sought
listed-filtered items key sought none found h = cc h
listed-filtered items key sought (some (arr ws)) {vs} found h =
    let same : elems ws ≡ vs = cc h in
    listed-eq items key sought found ∙ lists-arr ws sought ∙ ap (λ l. includes l sought) same
listed-filtered items key sought (some (str t)) found h = cc h
listed-filtered items key sought (some undefined) found h = cc h
listed-filtered items key sought (some null) found h = cc h
listed-filtered items key sought (some (bool b)) found h = cc h
listed-filtered items key sought (some (num n)) found h = cc h
listed-filtered items key sought (some (obj fs)) found h = cc h

listed-store_list :
    (key : String) (vs : List Value) (items : Items) (k : String) (sought : Value)
    → listed (store_list key vs items) k sought
      ≡ (if key == k then includes vs sought else listed items k sought)
unfolding includes
listed-store_list key [] items k sought = listed-erase items key k sought
listed-store_list key (v ∷ vs) items k sought =
    listed-insert items key k sought (arr (array (v ∷ vs)))
    ∙ ap (λ b. if key == k then b else listed items k sought) (lists-array (v ∷ vs) sought)

store_list-without :
    (key : String) (items : Items) (i : Value) {vs : List Value}
    → filtered (lookup key items) ≡ returned vs
    → (k : String) (sought : Value)
    → listed (store_list key (without vs i) items) k sought
      ≡ (listed items k sought && not ((key == k) && strict_eq i sought))
store_list-without key items i {vs} found k sought =
    listed-store_list key (without vs i) items k sought ∙ elim (Bool-cases (key == k)) [
      | inr other ↦ rw other (ground arith)
      | inl same ↦
          let was =
            subst (λ x. listed items x sought ≡ includes vs sought) ((eq_iff key k).0 same)
              (listed-filtered items key sought (lookup key items) refl found) in
          rw same (includes-without vs i sought ∙ ap (λ b. b && not (strict_eq i sought)) (sym was))
    ]

remove_values-IsRemoved :
    (key : String) (items : Items) (removed : List Value) {items' : Items}
    → remove_values key items removed ≡ returned items'
    → IsRemoved items key removed items'
unfolding remove_values IsRemoved includes
remove_values-IsRemoved key items [] {items'} h k sought =
    let done : items ≡ items' = cc h in
    subst (λ i. listed i k sought ≡ (listed items k sought && not ((key == k) && false))) done
      (ground arith)
remove_values-IsRemoved key items (i ∷ removed) h k sought =
    let (vs, found, rest) = bind-eq-returned (filtered (lookup key items)) _ h in
    let later =
      remove_values-IsRemoved key (store_list key (without vs i) items) removed rest k sought in
    later
    ∙ ap (λ b. b && not ((key == k) && includes removed sought))
        (store_list-without key items i found k sought)
    ∙ ground arith

remove_claim-IsRemoved :
    (items : Items) (key : String) (item : Value) {items' : Items}
    → remove_claim items key item ≡ returned items'
    → IsRemoved items key (as_list item) items'
unfolding remove_claim
remove_claim-IsRemoved items key item h = elim (Bool-cases (is_allowed key)) [
  | inr refused ↦ let h' = rw refused at h in cc
  | inl allowed ↦ elim (Option-cases (lookup key items)) [
    | inl absent ↦ let h' = rw (allowed, absent) at h in cc
    | inr (old, there) ↦ remove_values-IsRemoved key items (as_list item) (rw (allowed, there) at h)
  ]
]

each-listed :
    (items claims : Items) {items' : Items}
    → each remove_claim items claims ≡ returned items'
    → (k : String) (sought : Value)
    → listed items' k sought ≡ (listed items k sought && not (named claims k sought))
unfolding IsRemoved named
each-listed items [] {items'} h k sought =
    let done : items ≡ items' = cc h in
    subst (λ i. listed i k sought ≡ (listed items k sought && true)) done (ground arith)
each-listed items ((key, item) ∷ claims) h k sought =
    let (items1, first, rest) = bind-eq-returned (remove_claim items key item) _ h in
    each-listed items1 claims rest k sought
    ∙ ap (λ b. b && not (named claims k sought))
        (remove_claim-IsRemoved items key item first k sought)
    ∙ ground arith

remove-listed :
    (claims : Value) (table : Table) {table' : Table}
    → remove "claims" claims table ≡ returned table'
    → (key : String) (sought : Value)
    → listed (part_items table' "claims") key sought
      ≡ (listed (part_items table "claims") key sought && not (asked claims key sought))
remove-listed claims table {table'} h key sought =
    let u =
      update-eq-returned remove_claim (thrown (table_key_missing "claims")) "claims" claims table
        table' tt h in
    let same =
      ap (λ t. part_items t "claims") u.stored ∙ part_items-store table "claims" "claims" u.items in
    ap (λ i. listed i key sought) same
    ∙ each-listed (part_items table "claims") u.keys u.changed key sought
    ∙ ap (λ b. listed (part_items table "claims") key sought && not b)
        (sym (asked-eq claims key sought u.given))

-- Each list of a claim holds, after an action of type "remove" that passes, exactly the values,
-- as `===` compares, that it held and that the action does not name for the claim.
pub set_release_policy-remove :
    (args : Value) (table : Table) {table' : Table}
    → member args "type" ≡ str "remove"
    → set_release_policy args table ≡ returned table'
    → (key : String) (sought : Value)
    → listed (part_items table' "claims") key sought ≡ (
        listed (part_items table "claims") key sought
        && not (asked (member args "claims") key sought))
set_release_policy-remove args table {table'} type h key sought =
    let h' = set_release_policy-checked args table h in
    let (table1, removed, same) =
      change_parts-claims remove remove_operator args table
        (update-LeavesClaims remove_bound (λ part. thrown (table_key_missing part)) (λ _. tt))
        (sym (apply_release_policy-remove args table type) ∙ h') in
    ap (λ i. listed i key sought) same
    ∙ remove-listed (member args "claims") table removed key sought

remove_values-found :
    (key : String) (items : Items) (i : Value) (removed : List Value) {o : Option Value}
    → lookup key items ≡ o
    → remove_values key items (i ∷ removed)
      ≡ (filtered o >>= λ vs. remove_values key (store_list key (without vs i) items) removed)
unfolding remove_values
remove_values-found key items i removed found =
    ap (λ o. filtered o >>= λ vs. remove_values key (store_list key (without vs i) items) removed)
      found

-- A removal from the list of an allowed claim throws a TypeError, if its first value empties the list
-- and there is a further value, in the list before or not.
pub remove_claim-emptied :
    (items : Items) (key : String) (vs removed : Values) (i j : Value)
    → is_allowed key ≡ true
    → lookup key items ≡ some (arr vs)
    → without (elems vs) i ≡ []
    → remove_claim items key (arr (cons i (cons j removed))) ≡ thrown type_error
unfolding remove_claim as_list as_array
remove_claim-emptied items key vs removed i j allowed there empties =
    let gone : lookup key (erase key items) ≡ none =
      lookup-erase key key items ∙ ap (λ b. if b then none else lookup key items) (eq_refl key) in
    let rest = j ∷ elems removed in
    rw (allowed, there)
      (remove_values-found key items i rest there
        ∙ ap (λ ws. remove_values key (store_list key ws items) rest) empties
        ∙ remove_values-found key (erase key items) j (elems removed) gone)
