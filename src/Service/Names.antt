-- ===== src/Service/Names.antt =====
-- The numbers of the keys, and the names that they stand for.
use depa_kms_gcp_oidc.Prelude.{
  ℕ, ◌+◌, ◌≤◌, ◌≡◌, ap, ◌∙◌, String, some, length, lookup, arith, eqb, Bool-cases, inl, inr,
}
use depa_kms_gcp_oidc.KeyItem.{KeyItem}
use depa_kms_gcp_oidc.Ccf.{Ccf}
use depa_kms_gcp_oidc.Repositories.{Kv, size, get_id, get_key, store_key, store_key_id}
use depa_kms_gcp_oidc.Repositories.Numbering.{IsNumbered, size-stored, get_id-stored}
use depa_kms_gcp_oidc.Governance.Tables.Frame.{SameKeys}

-- There are at least as many numbers, and each number that was assigned still has its name.
pub record KeepsNames (kv kv' : Kv) : Type 0 where
  pub no_smaller : size kv ≤ size kv'
  pub same_name :
      (i : ℕ) (kid : String)
      → get_id i kv.hpke_key_ids ≡ some kid
      → get_id i kv'.hpke_key_ids ≡ some kid

pub KeepsNames-refl : (kv : Kv) → KeepsNames kv kv
KeepsNames-refl kv = record { no_smaller = omega arith; same_name = λ i kid h. h }

pub stored-KeepsNames :
    (ccf : Ccf) (kid claims : String) (item : KeyItem) (kv : Kv)
    → IsNumbered kv
    → KeepsNames kv (store_key ccf kid item claims (store_key_id (size kv + 1) kid kv))
stored-KeepsNames ccf kid claims item kv n = record {
  no_smaller = omega (arith, size-stored ccf kid claims item kv n);
  same_name = λ i name h. elim (Bool-cases (eqb i (size kv + 1))) [
    | inl new ↦
        let last : i ≡ size kv + 1 = ground arith in
        let none_there = n.beyond i (omega (arith, last)) in cc
    | inr old ↦ get_id-stored ccf kid claims item kv n i ∙ rw old h
  ];
}

same_size : {kv kv' : Kv} → SameKeys kv kv' → size kv' ≡ size kv
same_size same = ap length same.hpke_key_ids

pub IsNumbered-same : {kv kv' : Kv} → SameKeys kv kv' → IsNumbered kv → IsNumbered kv'
unfolding get_key
IsNumbered-same {kv} {kv'} same n = record {
  assigned = λ i low high.
      let (kid, item, numbered, found) = n.assigned i low (omega (arith, high, same_size same)) in
      (
        kid,
        item,
        ap (get_id i) same.hpke_key_ids ∙ numbered,
        ap (lookup kid) same.hpke_keys ∙ found,
      );
  beyond = λ i above.
      ap (get_id i) same.hpke_key_ids ∙ n.beyond i (omega (arith, above, same_size same));
}

pub KeepsNames-same : {kv kv' : Kv} → SameKeys kv kv' → KeepsNames kv kv'
KeepsNames-same same = record {
  no_smaller = omega (arith, same_size same);
  same_name = λ i kid h. ap (get_id i) same.hpke_key_ids ∙ h;
}

pub KeepsNames-trans :
    {kv next after : Kv} → KeepsNames kv next → KeepsNames next after → KeepsNames kv after
KeepsNames-trans k l = record {
  no_smaller = omega (arith, k.no_smaller, l.no_smaller);
  same_name = λ i kid h. l.same_name i kid (k.same_name i kid h);
}
