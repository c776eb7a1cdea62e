-- ===== src/Policies/KeyRotation/Exposure.antt =====
-- Which key `getLatestExposableKey` picks.
use depa_kms_gcp_oidc.Prelude.{
  ℕ, zero, suc, ◌≤◌, ◌<◌, ◌≡◌, ◌↔◌, ◌⊎◌, refl, ap, eqb, false, String, true, Option, none, some,
  arith, Option-cases, Bool-cases, inl, inr,
}
use depa_kms_gcp_oidc.Prelude.Int.{ℤ, pos, ◌+ℤ◌, ◌≤ℤ◌}
use depa_kms_gcp_oidc.KeyItem.{KeyItem}
use depa_kms_gcp_oidc.ServiceResult.{returned, Throws-cases}
use depa_kms_gcp_oidc.Policies.KeyRotation.{
  KeyRotationPolicy, PolicyMap, get_key_rotation_policy_from_map, is_old_at, is_exposable,
  exposable_loop, delay_of, get_latest_exposable_key,
}

-- A key may be shown: it has no known creation time, there is no delay, or it is as old as the
-- delay.
abbrev pub IsOldAt : ℤ → ℕ → Option ℕ → Type 0
IsOldAt delay now none = Unit
IsOldAt delay now (some created) = (delay ≤ℤ pos 0) ⊎ (pos created +ℤ delay ≤ℤ pos now)

abbrev pub IsOld : ℤ → ℕ → Option KeyItem → Type 0
IsOld delay now none = Unit
IsOld delay now (some item) = IsOldAt delay now item.timestamp

is_old_at_iff :
    (delay : ℤ) (now : ℕ) (timestamp : Option ℕ)
    → (is_old_at delay now timestamp ≡ true) ↔ IsOldAt delay now timestamp
unfolding is_old_at ◌+ℤ◌
is_old_at_iff delay now none = (λ _. tt, λ _. refl)
is_old_at_iff delay now (some created) = ground arith

is_exposable_iff :
    (delay : ℤ) (now : ℕ) (item : Option KeyItem)
    → (is_exposable delay now item ≡ true) ↔ IsOld delay now item
unfolding is_exposable
is_exposable_iff delay now none = (λ _. tt, λ _. refl)
is_exposable_iff delay now (some item) = is_old_at_iff delay now item.timestamp

module _ (delay : ℤ) (now : ℕ) (kid_for_id : ℕ → Option String)
    (key_item : String → Option KeyItem) where
  -- The number `id` has a key that may be shown.
  abbrev pub IsShown : ℕ → String → Type 0
  IsShown id kid = (kid_for_id id ≡ some kid) × IsOld delay now (key_item kid)

  -- The newest of the keys 1 to `size` that may be shown.
  pub record IsLatest (size id : ℕ) (kid : String) : Type 0 where
    pub positive : 1 ≤ id
    pub within : id ≤ size
    pub shown : IsShown id kid
    pub newest : (j : ℕ) (k : String) → id < j → j ≤ size → ¬ IsShown j k

  abbrev loop : ℕ → Option (ℕ × String)
  loop = exposable_loop delay now kid_for_id key_item

  data Round (n : ℕ) : Type 0 where
    shown : (kid : String) → IsShown (suc n) kid → loop (suc n) ≡ some (suc n, kid) → Round n
    hidden : ((kid : String) → ¬ IsShown (suc n) kid) → loop (suc n) ≡ loop n → Round n

  round : (n : ℕ) → Round n
  unfolding exposable_loop
  round n = elim (Option-cases (kid_for_id (suc n))) [
    | inl no_kid ↦ hidden (λ kid s. cc (s.0)) (rw (no_kid, exposable_loop) refl)
    | inr (kid, has_kid) ↦ elim (Bool-cases (is_exposable delay now (key_item kid))) [
      | inl old ↦
          shown kid (has_kid, (is_exposable_iff delay now (key_item kid)).0 old)
            (ground (arith, has_kid, old))
      | inr young ↦
          hidden
            (λ k s.
              let same : k ≡ kid = cc (s.0) in
              cc ((is_exposable_iff delay now (key_item kid)).1 (rw same at (s.1))))
            (ground (arith, has_kid, young))
    ]
  ]

  -- What the search among the keys 1 to `size` answers: the newest that may be shown, or that there
  -- is none.
  abbrev pub IsPick : ℕ → Option (ℕ × String) → Type 0
  IsPick size none = (j : ℕ) (k : String) → 1 ≤ j → j ≤ size → ¬ IsShown j k
  IsPick size (some (id, kid)) = IsLatest size id kid

  shown_IsPick : (n : ℕ) (kid : String) → IsShown (suc n) kid → IsPick (suc n) (some (suc n, kid))
  shown_IsPick n kid s = record {
    positive = omega arith;
    within = omega arith;
    shown = s;
    newest = λ j k above below. absurd (omega arith);
  }

  at_most_suc : (j n : ℕ) → j ≤ suc n → (j ≤ n) ⊎ (j ≡ suc n)
  at_most_suc j n h = omega arith

  hidden_at :
      (n : ℕ)
      → ((kid : String) → ¬ IsShown (suc n) kid)
      → (j : ℕ) (k : String) → j ≡ suc n
      → ¬ IsShown j k
  hidden_at n none_shown j k same s = none_shown k (rw same at s)

  hidden_IsPick :
      (n : ℕ) (r : Option (ℕ × String))
      → ((kid : String) → ¬ IsShown (suc n) kid)
      → IsPick n r
      → IsPick (suc n) r
  hidden_IsPick n none none_shown pick = λ j k low high. elim (at_most_suc j n high) [
    | inl older ↦ pick j k low older
    | inr newest ↦ hidden_at n none_shown j k newest
  ]
  hidden_IsPick n (some (id, kid)) none_shown pick = record {
    positive = pick.positive;
    within = omega (arith, pick.within);
    shown = pick.shown;
    newest = λ j k above high. elim (at_most_suc j n high) [
      | inl older ↦ pick.newest j k above older
      | inr last ↦ hidden_at n none_shown j k last
    ];
  }

  loop-IsPick : (size : ℕ) → IsPick size (loop size)
  unfolding exposable_loop
  loop-IsPick zero = λ j k low high. absurd (omega arith)
  loop-IsPick (suc n) = elim (round n) [
    | shown kid s e ↦ rw e (shown_IsPick n kid s)
    | hidden none_shown e ↦ rw e (hidden_IsPick n (loop n) none_shown (loop-IsPick n))
  ]

-- Under a readable policy the search returns, and its answer is the newest of the keys 1 to `size`
-- that has no known creation time or is at least as old as the grace period; it is empty exactly
-- where there is no such key.
pub get_latest_exposable_key-IsPick :
    (map : PolicyMap) (policy : Option KeyRotationPolicy) (now size : ℕ)
    (kid_for_id : ℕ → Option String) (key_item : String → Option KeyItem)
    → get_key_rotation_policy_from_map map ≡ returned policy
    → (r : Option (ℕ × String)) × (get_latest_exposable_key map now size kid_for_id key_item
        ≡ returned r)
      × IsPick (delay_of policy) now kid_for_id key_item size r
unfolding get_latest_exposable_key
get_latest_exposable_key-IsPick map policy now zero kid_for_id key_item e =
    (none, refl, λ j k low high. absurd (omega arith))
get_latest_exposable_key-IsPick map policy now (suc n) kid_for_id key_item e = (
  exposable_loop (delay_of policy) now kid_for_id key_item (suc n),
  ground (arith, e),
  loop-IsPick (delay_of policy) now kid_for_id key_item (suc n),
)

-- What the search reads of a key.
abbrev pub timestamp_of : Option KeyItem → Option (Option ℕ)
timestamp_of none = none
timestamp_of (some item) = some item.timestamp

is_exposable-timestamps :
    (delay : ℤ) (now : ℕ) (o p : Option KeyItem)
    → timestamp_of o ≡ timestamp_of p
    → is_exposable delay now o ≡ is_exposable delay now p
unfolding is_exposable
is_exposable-timestamps delay now none none same = refl
is_exposable-timestamps delay now (some a) (some b) same = ap (is_old_at delay now) (cc same)
is_exposable-timestamps delay now none (some b) same = cc
is_exposable-timestamps delay now (some a) none same = cc

module _ (now : ℕ) (kid_for_id : ℕ → Option String) (key_item other_item : String → Option KeyItem)
    (same : (k : String) → timestamp_of (key_item k) ≡ timestamp_of (other_item k)) where
  exposable_loop-timestamps :
      (delay : ℤ) (n : ℕ)
      → exposable_loop delay now kid_for_id key_item n
        ≡ exposable_loop delay now kid_for_id other_item n
  unfolding exposable_loop
  exposable_loop-timestamps delay zero = refl
  exposable_loop-timestamps delay (suc n) = elim (Option-cases (kid_for_id (suc n))) [
    | inl unassigned ↦ rw (unassigned, exposable_loop) (exposable_loop-timestamps delay n)
    | inr (kid, assigned) ↦
        rw
          (
            assigned,
            exposable_loop,
            is_exposable-timestamps delay now _ _ (same kid),
            exposable_loop-timestamps delay n,
          )
          refl
  ]

  -- The search reads only the timestamps of the keys.
  pub get_latest_exposable_key-timestamps :
      (map : PolicyMap) (size : ℕ)
      → get_latest_exposable_key map now size kid_for_id key_item
        ≡ get_latest_exposable_key map now size kid_for_id other_item
  unfolding get_latest_exposable_key
  get_latest_exposable_key-timestamps map zero = refl
  get_latest_exposable_key-timestamps map (suc size) =
      let test : eqb (suc size) 0 ≡ false = ground arith in
      elim (Throws-cases (get_key_rotation_policy_from_map map)) [
        | inr (e, failing) ↦ rw (test, failing, get_latest_exposable_key) refl
        | inl (policy, read) ↦
            rw (test, read, get_latest_exposable_key)
              (ap returned (exposable_loop-timestamps (delay_of policy) (suc size)))
      ]
