-- ===== src/Policies/KeyRotation.antt =====
-- src/policies/KeyRotationPolicy.ts: when keys expire, and which key the public endpoints show. A
-- stored policy is what `JSON.parse` makes of it, `none` where that throws; its two fields are
-- integers, as the governance action checks. `now` is the value of `Date.now()`.
pub mod Expiry
pub mod Exposure
use depa_kms_gcp_oidc.Prelude.{
  ℕ, zero, suc, ◌≡◌, String, Bool, true, false, ◌||◌, Option, none, some, List, lookup,
  if◌then◌else◌, eqb,
}
use depa_kms_gcp_oidc.Prelude.Int.{ℤ, pos, ◌+ℤ◌, ◌-ℤ◌, times_1000, ltb_ℤ, leb_ℤ}
use depa_kms_gcp_oidc.KeyItem.{KeyItem}
use depa_kms_gcp_oidc.ServiceResult.{
  Throws, returned, thrown, rotation_policy_unparsable, ◌>>=◌, or_throw,
}

pub record KeyRotationPolicy : Type 0 where
  pub rotation_interval_seconds : ℤ
  pub grace_period_seconds : ℤ

pub record ExpiryTimes : Type 0 where
  pub expiry_time_ms : ℤ
  pub expiry_time_and_grace_ms : ℤ

abbrev pub PolicyMap : Type 0
PolicyMap = List (String × Option KeyRotationPolicy)

unfoldable pub get_key_rotation_policy_from_map : PolicyMap → Throws (Option KeyRotationPolicy)
unfolding lookup
get_key_rotation_policy_from_map map = elim (lookup "key_rotation_policy" map) [
  | none ↦ returned none
  | some none ↦ thrown rotation_policy_unparsable
  | some (some policy) ↦ returned (some policy)
]

unfoldable pub expiry_times : KeyRotationPolicy → ℕ → ExpiryTimes
unfolding ◌+ℤ◌ times_1000
expiry_times policy created =
    let expiry = pos created +ℤ times_1000 policy.rotation_interval_seconds in
    record {
      expiry_time_ms = expiry;
      expiry_time_and_grace_ms = expiry +ℤ times_1000 policy.grace_period_seconds;
    }

unfoldable pub get_key_item_expiry_time : PolicyMap → ℕ → Throws (Option ExpiryTimes)
unfolding get_key_rotation_policy_from_map expiry_times
get_key_item_expiry_time map created = do
  policy ← get_key_rotation_policy_from_map map
  returned (elim policy [ none ↦ none | some p ↦ some (expiry_times p created) ])

-- The two comparisons of `isExpired`; the pair is (expired, deprecated).
compare_times : ℕ → ExpiryTimes → Bool × Bool
compare_times now times =
    if ltb_ℤ times.expiry_time_ms (pos now)
    then (true, true)
    else if ltb_ℤ times.expiry_time_and_grace_ms (pos now)
    then (false, true)
    else (false, false)

-- With no timestamp the times are NaN, and no comparison holds.
expired_at : ℕ → Option ExpiryTimes → Option ℕ → Bool × Bool
unfolding compare_times
expired_at now none timestamp = (false, false)
expired_at now (some times) none = (false, false)
expired_at now (some times) (some created) = compare_times now times

unfoldable pub is_expired : PolicyMap → ℕ → KeyItem → Throws (Bool × Bool)
unfolding get_key_item_expiry_time expired_at
is_expired map now item = do
  times ← get_key_item_expiry_time map (elim item.timestamp [ none ↦ 0 | some t ↦ t ])
  returned (expired_at now times item.timestamp)

-- The test of a key in the loop of `getLatestExposableKey`, on its timestamp.
is_old_at : ℤ → ℕ → Option ℕ → Bool
unfolding ◌-ℤ◌
is_old_at delay_ms now none = true
is_old_at delay_ms now (some created) =
    leb_ℤ delay_ms (pos 0) || leb_ℤ delay_ms (pos now -ℤ pos created)

is_exposable : ℤ → ℕ → Option KeyItem → Bool
unfolding is_old_at
is_exposable delay_ms now none = true
is_exposable delay_ms now (some item) = is_old_at delay_ms now item.timestamp

module _ (delay_ms : ℤ) (now : ℕ) (kid_for_id : ℕ → Option String)
    (key_item : String → Option KeyItem) where
  exposable_loop : ℕ → Option (ℕ × String)
  unfolding is_exposable
  exposable_loop zero = none
  exposable_loop (suc n) =
      let older = exposable_loop n in
      elim (kid_for_id (suc n)) [
        | none ↦ older
        | some kid ↦ if is_exposable delay_ms now (key_item kid) then some (suc n, kid) else older
      ]

-- `(policy?.grace_period_seconds ?? 0) * 1000`
abbrev pub delay_of : Option KeyRotationPolicy → ℤ
delay_of none = times_1000 (pos 0)
delay_of (some policy) = times_1000 policy.grace_period_seconds

unfoldable pub get_latest_exposable_key :
    PolicyMap
    → ℕ
    → ℕ
    → (ℕ → Option String)
    → (String → Option KeyItem)
    → Throws (Option (ℕ × String))
unfolding get_key_rotation_policy_from_map exposable_loop times_1000
get_latest_exposable_key map now size kid_for_id key_item = if eqb size 0 then returned none else do
  policy ← get_key_rotation_policy_from_map map
  returned (exposable_loop (delay_of policy) now kid_for_id key_item size)
