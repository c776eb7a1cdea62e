-- ===== src/Endpoints/Tink/Cache.antt =====
-- The key set that an object of a Tink class keeps between calls.
use depa_kms_gcp_oidc.Prelude.{◌≡◌, refl, inl, inr, some, List, [], ◌∷◌, map}
use depa_kms_gcp_oidc.KeyItem.{KeyItem}
use depa_kms_gcp_oidc.ServiceResult.{Throws, returned, ◌>>=◌, Throws-cases}
use depa_kms_gcp_oidc.Endpoints.Tink.{
  KeySets, new_key_sets, Call, get_call, serialized_call, get, serialized, call, calls,
}

module _ {A : Type 0} (build : List KeyItem → Throws A) (items : List KeyItem) where
  abbrev filled : A → KeySets A
  filled a = record { key_item = items; tink_key_set = some a }

  call-filled : (a : A) (c : Call) → call build c (filled a) ≡ returned (a, filled a)
  unfolding get serialized
  call-filled a get_call = refl
  call-filled a serialized_call = refl

  calls-filled :
      (a : A) (cs : List Call) → calls build cs (filled a) ≡ returned (map (λ _. a) cs, filled a)
  unfolding calls
  calls-filled a [] = refl
  calls-filled a (c ∷ cs) = rw (call-filled a c, calls-filled a cs) refl

  call-new :
      (c : Call)
      → call build c (new_key_sets build items) ≡ (build items >>= λ a. returned (a, filled a))
  unfolding get serialized
  call-new get_call = refl
  call-new serialized_call = elim (Throws-cases (build items)) [
    | inl (a, made) ↦ rw made refl
    | inr (e, failed) ↦ rw failed refl
  ]

  -- Any number of calls of `get` and `serialized` in any order on a new object all answer the key set
  -- that is built from its keys, and throw if building it throws.
  pub calls-new :
      (c : Call) (cs : List Call)
      → (calls build (c ∷ cs) (new_key_sets build items) >>= λ r. returned r.0)
        ≡ (build items >>= λ a. returned (map (λ _. a) (c ∷ cs)))
  unfolding calls
  calls-new c cs = elim (Throws-cases (build items)) [
    | inl (a, made) ↦ rw (call-new c, made, calls-filled a cs) refl
    | inr (e, failed) ↦ rw (call-new c, failed) refl
  ]
