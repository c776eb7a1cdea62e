-- ===== src/Policies/KeyRotation/Expiry.antt =====
-- When `isExpired` calls a key expired or deprecated.
use depa_kms_gcp_oidc.Prelude.{
  ℕ, ◌≡◌, ◌↔◌, Bool, true, false, some, arith, lookup, Option-cases, inl, inr, ap, ◌∙◌,
}
use depa_kms_gcp_oidc.Prelude.Int.{pos, ◌+ℤ◌, times_1000, ◌≤ℤ◌, ◌<ℤ◌}
use depa_kms_gcp_oidc.KeyItem.{KeyItem}
use depa_kms_gcp_oidc.ServiceResult.{returned}
use depa_kms_gcp_oidc.Policies.KeyRotation.{
  KeyRotationPolicy, PolicyMap, expiry_times, get_key_rotation_policy_from_map,
  get_key_item_expiry_time, compare_times, expired_at, is_expired,
}

-- The policy of the map, if there is a readable one.
abbrev pub HasPolicy : PolicyMap → KeyRotationPolicy → Type 0
HasPolicy map p = lookup "key_rotation_policy" map ≡ some (some p)

module _ (p : KeyRotationPolicy) (now created : ℕ) where
  abbrev verdict : Bool × Bool
  verdict = compare_times now (expiry_times p created)

  compare_times-expired :
      (verdict.0 ≡ true) ↔ (pos created +ℤ times_1000 p.rotation_interval_seconds <ℤ pos now)
  unfolding compare_times expiry_times
  compare_times-expired = ground arith

is_expired-eq :
    (map : PolicyMap) (p : KeyRotationPolicy) (item : KeyItem) (now created : ℕ)
    → HasPolicy map p
    → item.timestamp ≡ some created
    → is_expired map now item ≡ returned (compare_times now (expiry_times p created))
unfolding is_expired get_key_item_expiry_time get_key_rotation_policy_from_map expired_at
is_expired-eq map p item now created has stamped = ground (arith, has, stamped)

compare_times-grace :
    (p : KeyRotationPolicy) (now created : ℕ)
    → pos 0 ≤ℤ p.grace_period_seconds
    → (compare_times now (expiry_times p created)).1
      ≡ (compare_times now (expiry_times p created)).0
unfolding compare_times expiry_times
compare_times-grace p now created h = ground arith

-- Under a policy every key has a verdict.
pub is_expired_total :
    (map : PolicyMap) (p : KeyRotationPolicy) (item : KeyItem) (now : ℕ)
    → HasPolicy map p
    → (verdict : Bool × Bool) × (is_expired map now item ≡ returned verdict)
unfolding is_expired get_key_item_expiry_time get_key_rotation_policy_from_map expired_at
is_expired_total map p item now has = elim (Option-cases item.timestamp) [
  | inl unstamped ↦ ((false, false), ground (arith, has, unstamped))
  | inr (created, stamped) ↦ (_, is_expired-eq map p item now created has stamped)
]

-- Under a policy, a key with a timestamp is expired exactly when the rotation interval has passed
-- since its creation.
pub is_expired_iff :
    (map : PolicyMap) (p : KeyRotationPolicy) (item : KeyItem) (now created : ℕ)
    → HasPolicy map p
    → item.timestamp ≡ some created
    → (verdict : Bool × Bool) × (is_expired map now item ≡ returned verdict)
      × ((verdict.0 ≡ true) ↔ (pos created +ℤ times_1000 p.rotation_interval_seconds <ℤ pos now))
is_expired_iff map p item now created has stamped =
    (_, is_expired-eq map p item now created has stamped, compare_times-expired p now created)

-- Where the grace period is not negative no key is deprecated and still valid: a key is deprecated
-- exactly when it is expired, and the grace period does not count.
pub is_expired-grace_ignored :
    (map : PolicyMap) (p : KeyRotationPolicy) (item : KeyItem) (now : ℕ)
    → HasPolicy map p
    → pos 0 ≤ℤ p.grace_period_seconds
    → (b : Bool) × (is_expired map now item ≡ returned (b, b))
unfolding is_expired get_key_item_expiry_time get_key_rotation_policy_from_map expired_at
is_expired-grace_ignored map p item now has grace = elim (Option-cases item.timestamp) [
  | inl unstamped ↦ (false, ground (arith, has, unstamped))
  | inr (created, stamped) ↦ (
    (compare_times now (expiry_times p created)).0,
    is_expired-eq map p item now created has stamped
        ∙ ap (λ d. returned ((compare_times now (expiry_times p created)).0, d))
            (compare_times-grace p now created grace),
  )
]
