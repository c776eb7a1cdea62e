-- ===== src/Endpoints/PublicKeys/Choice.antt =====
-- Which key the public endpoints show.
use mathlib.Core.Path.{subst}
use depa_kms_gcp_oidc.Prelude.{
  ℕ, ◌≡◌, ◌≢◌, sym, ap, ◌∙◌, inl, inr, String, true, Option, none, some, List, [], ◌∷◌, ◌==◌,
  Bool-cases, Option-cases, eq_iff,
}
use depa_kms_gcp_oidc.KeyItem.{KeyItem, without_private}
use depa_kms_gcp_oidc.Ccf.{Ccf}
use depa_kms_gcp_oidc.ServiceResult.{
  kid_not_found, endpoint_exception, returned, success, catching-eq-succeeded, unless_failed-passed,
  returned-injective,
}
use depa_kms_gcp_oidc.Policies.KeyRotation.{
  KeyRotationPolicy, get_key_rotation_policy_from_map, delay_of,
}
use depa_kms_gcp_oidc.Policies.KeyRotation.Exposure.{IsPick, get_latest_exposable_key-IsPick}
use depa_kms_gcp_oidc.Repositories.{Kv, size, get_id, latest_item, get_key, receipt}
use depa_kms_gcp_oidc.Authorization.{Request, is_authenticated}
use depa_kms_gcp_oidc.Endpoints.Handler.{
  pure, or_fail, or_escape, or_accepted, bind-eq-pure, pure-injective, or_fail-eq-pure,
  or_escape-eq-pure, or_accepted-eq-pure, then-eq-returned,
}
use depa_kms_gcp_oidc.Endpoints.ServiceRequest.{
  ServiceRequest, service_request, query_value, Format, format_of,
}
use depa_kms_gcp_oidc.Endpoints.Tink.{TinkPublicKey, tink_public_keys}
use depa_kms_gcp_oidc.Endpoints.PrivateKeys.{named_fmt, with_receipt}
use depa_kms_gcp_oidc.Endpoints.PublicKeys.{
  kid_or_latest, exposed_kid, list_keys, listpubkeys, PublicKey, asked_kid, formatted, show_key,
  pubkey,
}

module _ (policy : Option KeyRotationPolicy) (now : ℕ) (kv : Kv) where
  abbrev Pick : Option (ℕ × String) → Type 0
  Pick =
      IsPick (delay_of policy) now (λ id. get_id id kv.hpke_key_ids) (λ kid. get_key kid kv)
        (size kv)

  -- The newest key that is old enough to be shown, or the newest of all where there is none.
  pub data IsExposed (kid : String) : Type 0 where
    old_enough : (id : ℕ) → Pick (some (id, kid)) → IsExposed kid
    newest : Pick none → (latest_item kv).1 ≡ some kid → IsExposed kid

  IsExposed-of_Pick :
      (found : Option (ℕ × String)) {kid : String}
      → Pick found
      → kid_or_latest found kv ≡ some kid
      → IsExposed kid
  unfolding kid_or_latest
  IsExposed-of_Pick none pick h = IsExposed.newest pick h
  IsExposed-of_Pick (some (id, name)) {kid} pick h =
      IsExposed.old_enough id (subst (λ k. Pick (some (id, k))) (cc h) pick)

  -- The query names no key, or the empty text.
  pub data IsUnnamed (sr : ServiceRequest) : Type 0 where
    absent : query_value sr "kid" ≡ none → IsUnnamed sr
    empty : query_value sr "kid" ≡ some "" → IsUnnamed sr

  -- The key that the query names, or the exposed one where it names none.
  pub data IsAsked (sr : ServiceRequest) (kid : String) : Type 0 where
    by_name : query_value sr "kid" ≡ some kid → kid ≢ "" → IsAsked sr kid
    unnamed : IsUnnamed sr → IsExposed kid → IsAsked sr kid

  module _ (readable : get_key_rotation_policy_from_map kv.key_rotation ≡ returned policy) where
    exposed_kid-IsExposed : {kid : String} → exposed_kid now kv ≡ pure kid → IsExposed kid
    unfolding exposed_kid
    exposed_kid-IsExposed h =
        let (found, searched, chosen) = bind-eq-pure (or_escape _) _ h in
        let (pick, returns, is_pick) =
          get_latest_exposable_key-IsPick kv.key_rotation policy now (size kv)
            (λ id. get_id id kv.hpke_key_ids) (λ kid. get_key kid kv) readable in
        let same : pick ≡ found = returned-injective (sym returns ∙ or_escape-eq-pure _ searched) in
        IsExposed-of_Pick found (subst Pick same is_pick) (or_fail-eq-pure _ _ _ chosen)

    -- If the rotation policy is readable and `listpubkeys` succeeds, then the request passes the
    -- authentication, and the answer is made of the stored key, without its private part, which is the
    -- newest that is old enough to be shown, or the newest of all where none is.
    pub listpubkeys_sound :
        (ccf : Ccf) (request : Request) (answer : List TinkPublicKey)
        → listpubkeys ccf now kv request ≡ pure answer
        → (success (is_authenticated kv request) ≡ true)
          × (kid : String) × (item : KeyItem) × IsExposed kid
          × (get_key kid kv ≡ some item)
          × (tink_public_keys ccf (without_private item ∷ []) ≡ returned answer)
    unfolding listpubkeys list_keys
    listpubkeys_sound ccf request answer h =
        let (_, _, h₀) = then-eq-returned (service_request kv request) _ h in
        let (passed, rest) = unless_failed-passed (is_authenticated kv request) _ h₀ in
        let (kid, h₁, k₁) =
          bind-eq-pure (exposed_kid now kv) _
            (catching-eq-succeeded endpoint_exception 500 _ rest) in
        let (item, h₂, k₂) = bind-eq-pure (or_fail (get_key kid kv) (kid_not_found kid) 404) _ k₁ in
        let (keys, h₃, k₃) = bind-eq-pure (or_escape _) _ k₂ in
        (
          passed,
          kid,
          item,
          exposed_kid-IsExposed h₁,
          or_fail-eq-pure _ _ _ h₂,
          or_escape-eq-pure _ h₃ ∙ ap returned (pure-injective k₃),
        )

    asked_kid-IsAsked :
        (sr : ServiceRequest) {kid : String} → asked_kid sr now kv ≡ pure kid → IsAsked sr kid
    unfolding asked_kid
    asked_kid-IsAsked sr {kid} h = elim (Option-cases (query_value sr "kid")) [
      | inl missing ↦
          IsAsked.unnamed (IsUnnamed.absent missing)
            (exposed_kid-IsExposed (rw (missing, asked_kid) at h))
      | inr (name, given) ↦ elim (Bool-cases (name == "")) [
        | inl none_given ↦
            let named_empty = given ∙ ap some ((eq_iff name "").0 none_given) in
            IsAsked.unnamed (IsUnnamed.empty named_empty)
              (exposed_kid-IsExposed (rw (given, none_given, asked_kid) at h))
        | inr filled ↦
            let h' = rw (given, filled, asked_kid) at h in
            let same : name ≡ kid = pure-injective h' in
            IsAsked.by_name (given ∙ ap some same)
              (λ none_. let full = rw (same, none_) at filled in cc)
      ]
    ]

    -- If the rotation policy is readable and `pubkey` succeeds, then the request passes the
    -- authentication, and the answer shows a stored key with its receipt and without its private part, in
    -- the format that the query asks for: the key that the query names, and else the newest that is old
    -- enough to be shown, or the newest of all where none is.
    pub pubkey_sound :
        (ccf : Ccf) (request : Request) (answer : PublicKey)
        → pubkey ccf now kv request ≡ pure answer
        → (success (is_authenticated kv request) ≡ true)
          × (sr : ServiceRequest) × (service_request kv request ≡ returned sr)
          × (kid shown : String) × (fmt : Format) × (item : KeyItem) × IsAsked sr kid
          × (format_of sr ≡ some fmt)
          × (get_key kid kv ≡ some item)
          × (receipt ccf kid ≡ some shown)
          × (formatted ccf fmt shown (without_private (with_receipt shown item)) ≡ returned answer)
    unfolding pubkey show_key named_fmt
    pubkey_sound ccf request answer h =
        let (sr, constructed, h₀) = then-eq-returned (service_request kv request) _ h in
        let (passed, rest) = unless_failed-passed (is_authenticated kv request) _ h₀ in
        let (kid, h₁, k₁) =
          bind-eq-pure (asked_kid sr now kv) _
            (catching-eq-succeeded endpoint_exception 500 _ rest) in
        let (fmt, h₂, k₂) = bind-eq-pure (named_fmt sr) _ k₁ in
        let (item, h₃, k₃) = bind-eq-pure (or_fail (get_key kid kv) (kid_not_found kid) 404) _ k₂ in
        let (shown, h₄, k₄) = bind-eq-pure (or_accepted (receipt ccf kid)) _ k₃ in
        let (made, h₅, k₅) = bind-eq-pure (or_escape _) _ k₄ in
        (
          passed,
          sr,
          constructed,
          kid,
          shown,
          fmt,
          item,
          asked_kid-IsAsked sr h₁,
          or_fail-eq-pure _ _ _ h₂,
          or_fail-eq-pure _ _ _ h₃,
          or_accepted-eq-pure _ h₄,
          or_escape-eq-pure _ h₅ ∙ ap returned (pure-injective k₅),
        )
