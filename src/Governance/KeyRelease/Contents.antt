-- ===== src/Governance/KeyRelease/Contents.antt =====
-- src/actions/set_key_release_policy.js: the values that a part of the table lists under a claim, as
-- the actions have to change them; and as `===` tells values apart.
use depa_kms_gcp_oidc.Prelude.{
  ◌≡◌, refl, sym, ap, ◌∙◌, String, Bool, true, false, not, ◌&&◌, ◌||◌, Option, none, some, List, [],
  ◌∷◌, ◌++◌, ◌==◌, any, lookup, insert, insert, lookup-insert, erase, lookup-erase, inl, inr,
  Bool-cases, arith, if◌then◌else◌,
}
use depa_kms_gcp_oidc.Governance.KeyRelease.Identity.{
  strict_eq_cong, strict_eq_apart, includes-same,
}
use depa_kms_gcp_oidc.Js.{Value, arr, Values, elems, props, entries, includes, strict_eq}
use depa_kms_gcp_oidc.Governance.KeyRelease.{Items, array, object, as_list, push_new, without}

abbrev pub lists : Value → Value → Bool
unfolding includes
lists (arr vs) sought = includes (elems vs) sought
lists _ sought = false

abbrev pub value_lists : Option Value → Value → Bool
value_lists none sought = false
value_lists (some v) sought = lists v sought

-- Is the value in the list of the claim?
abbrev pub listed : Items → String → Value → Bool
unfolding lookup lists
listed items key sought = value_lists (lookup key items) sought

-- Is it an argument of the action for the claim?
unfoldable pub named : Items → String → Value → Bool
unfolding includes as_list
named [] key sought = false
named ((name, item) ∷ claims) key sought =
    (name == key) && includes (as_list item) sought || named claims key sought

keys_name : Option Items → String → Value → Bool
unfolding named
keys_name none key sought = false
keys_name (some keys) key sought = named keys key sought

pub asked : Value → String → Value → Bool
unfolding entries keys_name
asked claims key sought = keys_name (entries claims) key sought

pub asked-eq :
    (claims : Value) (key : String) (sought : Value) {keys : Items}
    → entries claims ≡ some keys
    → asked claims key sought ≡ named keys key sought
unfolding asked keys_name
asked-eq claims key sought given = ap (λ o. keys_name o key sought) given

pub elems-array : (vs : List Value) → elems (array vs) ≡ vs
elems-array [] = refl
elems-array (v ∷ vs) = cc (elems-array vs)

pub lists-arr : (vs : Values) (sought : Value) → lists (arr vs) sought ≡ includes (elems vs) sought
unfolding lists
lists-arr vs sought = refl

pub lists-array :
    (vs : List Value) (sought : Value) → lists (arr (array vs)) sought ≡ includes vs sought
unfolding lists
lists-array vs sought = ap (λ ws. includes ws sought) (elems-array vs)

pub props-object : (items : Items) → props (object items) ≡ items
props-object [] = refl
props-object ((key, v) ∷ items) = cc (props-object items)

any-append : (p : Value → Bool) (vs ws : List Value) → any p (vs ++ ws) ≡ (any p vs || any p ws)
any-append p [] ws = refl
any-append p (v ∷ vs) ws = ground (arith, any-append p vs ws)

pub includes-push_new :
    (vs added : List Value) (sought : Value)
    → includes (push_new vs added) sought ≡ (includes vs sought || includes added sought)
unfolding push_new includes
includes-push_new vs [] sought = ground arith
includes-push_new vs (i ∷ added) sought = elim (Bool-cases (includes vs i)) [
  | inl there ↦
      let later = includes-push_new vs added sought in
      elim (Bool-cases (strict_eq i sought)) [
        | inl text ↦ let h = includes-same vs i sought there text in grind arith
        | inr other ↦ grind arith
      ]
  | inr missing ↦
      let later = includes-push_new (vs ++ i ∷ []) added sought in
      let parts = any-append (λ w. strict_eq w sought) vs (i ∷ []) in ground arith
]

pub includes-without :
    (vs : List Value) (i : Value) (sought : Value)
    → includes (without vs i) sought ≡ (includes vs sought && not (strict_eq i sought))
unfolding without includes
includes-without [] i sought = refl
includes-without (v ∷ vs) i sought =
    let later = includes-without vs i sought in
    elim (Bool-cases (strict_eq v i)) [
      | inr other ↦ let h = strict_eq_apart v i sought other in ground arith
      | inl same ↦ let h = strict_eq_cong v i sought same in ground arith
    ]

-- Every claim has a list.
abbrev pub AreLists : Items → Type 0
AreLists items =
    (key : String) (v : Value) → lookup key items ≡ some v → (vs : Values) × (v ≡ arr vs)

pub listed-eq :
    (items : Items) (key : String) (sought : Value) {o : Option Value}
    → lookup key items ≡ o
    → listed items key sought ≡ value_lists o sought
unfolding listed
listed-eq items key sought found = ap (λ o. value_lists o sought) found

pub listed-insert :
    (items : Items) (key k : String) (sought : Value) (v : Value)
    → listed (insert key v items) k sought
      ≡ (if key == k then lists v sought else listed items k sought)
unfolding listed lookup
listed-insert items key k sought v =
    ap (λ o. value_lists o sought) (lookup-insert key k v items) ∙ go (key == k)
  where
    go :
        (same : Bool)
        → value_lists (if same then some v else lookup k items) sought
          ≡ (if same then lists v sought else listed items k sought)
    go true = refl
    go false = refl

pub listed-erase :
    (items : Items) (key k : String) (sought : Value)
    → listed (erase key items) k sought ≡ (if key == k then false else listed items k sought)
unfolding listed lookup
listed-erase items key k sought =
    ap (λ o. value_lists o sought) (lookup-erase key k items) ∙ go (key == k)
  where
    go :
        (same : Bool)
        → value_lists (if same then none else lookup k items) sought
          ≡ (if same then false else listed items k sought)
    go true = refl
    go false = refl

pub AreLists-insert :
    (items : Items) (key : String) (vs : Values)
    → AreLists items
    → AreLists (insert key (arr vs) items)
AreLists-insert items key vs are k v there =
    let found = sym (lookup-insert key k (arr vs) items) ∙ there in
    elim (Bool-cases (key == k)) [
      | inl same ↦ let h = rw same at found in (vs, cc h)
      | inr other ↦ are k v (rw other at found)
    ]
