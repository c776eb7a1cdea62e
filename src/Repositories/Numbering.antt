-- ===== src/Repositories/Numbering.antt =====
-- The numbers of the keys: what the table of numbers and that of keys say of each other.
use depa_kms_gcp_oidc.Prelude.{
  ℕ, ◌+◌, ◌≤◌, ◌<◌, ◌≡◌, refl, ◌∙◌, inl, inr, String, true, false, none, some, List, [], ◌∷◌,
  length, lookup-insert, arith, Bool-cases, ◌==◌, eq_refl, eqb, if◌then◌else◌,
}
use depa_kms_gcp_oidc.KeyItem.{KeyItem}
use depa_kms_gcp_oidc.Ccf.{Ccf}
use depa_kms_gcp_oidc.Repositories.{
  Kv, get_id, set_id, size, latest_item, store_key_id, store_key, get_key,
}

get_id-set_id :
    (i j : ℕ) (kid : String) (ids : List (ℕ × String))
    → get_id j (set_id i kid ids) ≡ (if eqb j i then some kid else get_id j ids)
unfolding get_id set_id
get_id-set_id i j kid [] = refl
get_id-set_id i j kid ((k, old) ∷ ids) = ground (arith, get_id-set_id i j kid ids)

length-set_id :
    (i : ℕ) (kid : String) (ids : List (ℕ × String))
    → get_id i ids ≡ none
    → length (set_id i kid ids) ≡ length ids + 1
unfolding get_id set_id
length-set_id i kid [] h = refl
length-set_id i kid ((k, old) ∷ ids) h = ground (arith, length-set_id i kid ids)

-- Exactly the numbers from 1 to the size are assigned, each to the name of a stored key.
pub record IsNumbered (kv : Kv) : Type 0 where
  pub assigned :
      (i : ℕ)
      → 1 ≤ i
      → i ≤ size kv
      → (kid : String) × (item : KeyItem) × (get_id i kv.hpke_key_ids ≡ some kid)
        × (get_key kid kv ≡ some item)
  pub beyond : (i : ℕ) → size kv < i → get_id i kv.hpke_key_ids ≡ none

module _ (ccf : Ccf) (kid claims : String) (item : KeyItem) (kv : Kv) (n : IsNumbered kv) where
  -- A key is put under the next number and under its name.
  abbrev pub stored : Kv
  stored = store_key ccf kid item claims (store_key_id (size kv + 1) kid kv)

  -- Storing a key under the next number adds one number.
  pub size-stored : size stored ≡ size kv + 1
  unfolding store_key store_key_id
  size-stored =
      length-set_id (size kv + 1) kid kv.hpke_key_ids (n.beyond (size kv + 1) (omega arith))

  pub get_id-stored :
      (i : ℕ)
      → get_id i stored.hpke_key_ids
        ≡ (if eqb i (size kv + 1) then some kid else get_id i kv.hpke_key_ids)
  unfolding store_key store_key_id
  get_id-stored i = get_id-set_id (size kv + 1) i kid kv.hpke_key_ids

  pub get_key-stored :
      (k : String) → get_key k stored ≡ (if kid == k then some item else get_key k kv)
  unfolding store_key store_key_id get_key
  get_key-stored k = lookup-insert kid k item kv.hpke_keys

  -- The key is found under its name.
  pub get_key-stored_new : get_key kid stored ≡ some item
  get_key-stored_new = get_key-stored kid ∙ rw (eq_refl kid) refl

  -- The key is the latest one.
  pub latest_item-stored : latest_item stored ≡ (size kv + 1, some kid)
  unfolding latest_item
  latest_item-stored =
      let last = get_id-stored (size kv + 1) in
      let test : eqb (size kv + 1) 0 ≡ false = ground arith in
      let same : eqb (size kv + 1) (size kv + 1) ≡ true = ground arith in
      rw (size-stored, test, last, same) refl

  still_stored :
      (k : String) (old : KeyItem)
      → get_key k kv ≡ some old
      → (new : KeyItem) × (get_key k stored ≡ some new)
  still_stored k old h = elim (Bool-cases (kid == k)) [
    | inl same ↦ (item, get_key-stored k ∙ rw same refl)
    | inr other ↦ (old, get_key-stored k ∙ rw other h)
  ]

  at_most_size : (i : ℕ) → i ≤ size stored → eqb i (size kv + 1) ≡ false → i ≤ size kv
  at_most_size i high earlier = let s = size-stored in ground arith

  later : (i : ℕ) → size stored < i → get_id i stored.hpke_key_ids ≡ none
  later i above =
      let s = size-stored in
      let higher : size kv < i = omega (arith, s, above) in
      let test : eqb i (size kv + 1) ≡ false = ground arith in
      get_id-stored i ∙ rw test (n.beyond i higher)

  -- The numbering stays well-formed.
  pub stored-IsNumbered : IsNumbered stored
  stored-IsNumbered = record {
    assigned = λ i low high. elim (Bool-cases (eqb i (size kv + 1))) [
      | inl last ↦ (kid, item, get_id-stored i ∙ rw last refl, get_key-stored_new)
      | inr earlier ↦
          let (k, old, numbered, found) = n.assigned i low (at_most_size i high earlier) in
          let (new, found') = still_stored k old found in
          (k, new, get_id-stored i ∙ rw earlier numbered, found')
    ];
    beyond = later;
  }
