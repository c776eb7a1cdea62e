-- ===== src/Endpoints/PublicKeys/Secrecy.antt =====
-- The public endpoints and the private parts of the keys.
use depa_kms_gcp_oidc.Prelude.{
  ℕ, ◌≡◌, refl, ap, ◌∙◌, String, Option, none, some, List, [], ◌∷◌, lookup, arith, ◌==◌,
  if◌then◌else◌,
}
use depa_kms_gcp_oidc.KeyItem.{KeyItem, without_private}
use depa_kms_gcp_oidc.Ccf.{Ccf}
use depa_kms_gcp_oidc.ServiceResult.{
  no_keys_in_store, kid_not_found, endpoint_exception, unless_failed, catching,
}
use depa_kms_gcp_oidc.Policies.KeyRotation.Exposure.{
  timestamp_of, get_latest_exposable_key-timestamps,
}
use depa_kms_gcp_oidc.Repositories.{Kv, size, get_id, latest_item, get_key, receipt}
use depa_kms_gcp_oidc.Authorization.{Request, is_authenticated}
use depa_kms_gcp_oidc.Authorization.Callers.{is_authenticated-keys}
use depa_kms_gcp_oidc.Endpoints.Handler.{
  Handler, ◌>>=◌, pure, or_fail, or_escape, or_accepted, bind-same, then-same,
}
use depa_kms_gcp_oidc.Endpoints.ServiceRequest.{
  ServiceRequest, service_request, query_value, Format,
}
use depa_kms_gcp_oidc.Endpoints.Tink.{tink_public_keys}
use depa_kms_gcp_oidc.Endpoints.PrivateKeys.{named_fmt, with_receipt}
use depa_kms_gcp_oidc.Endpoints.PublicKeys.{
  kid_or_latest, exposed_kid, list_keys, listpubkeys, PublicKey, asked_kid, formatted, show_key,
  pubkey,
}

abbrev strip_all : List (String × KeyItem) → List (String × KeyItem)
strip_all [] = []
strip_all ((kid, item) ∷ keys) = (kid, without_private item) ∷ strip_all keys

-- The store with the private part of every key taken out.
abbrev pub without_privates : Kv → Kv
without_privates kv = record kv { hpke_keys = strip_all kv.hpke_keys }

abbrev strip : Option KeyItem → Option KeyItem
strip none = none
strip (some item) = some (without_private item)

lookup-strip_all :
    (k : String) (keys : List (String × KeyItem))
    → lookup k (strip_all keys) ≡ strip (lookup k keys)
unfolding lookup
lookup-strip_all k [] = refl
lookup-strip_all k ((kid, item) ∷ keys) = ground (arith, lookup-strip_all k keys)

module _ (ccf : Ccf) (now : ℕ) (kv : Kv) where
  get_key-strip : (k : String) → get_key k (without_privates kv) ≡ strip (get_key k kv)
  unfolding get_key
  get_key-strip k = lookup-strip_all k kv.hpke_keys

  timestamp_of-strip : (o : Option KeyItem) → timestamp_of (strip o) ≡ timestamp_of o
  timestamp_of-strip none = refl
  timestamp_of-strip (some item) = refl

  kid_or_latest-strip :
      (pick : Option (ℕ × String))
      → kid_or_latest pick (without_privates kv) ≡ kid_or_latest pick kv
  unfolding kid_or_latest latest_item
  kid_or_latest-strip none = refl
  kid_or_latest-strip (some (id, kid)) = refl

  exposed_kid-strip : exposed_kid now (without_privates kv) ≡ exposed_kid now kv
  unfolding exposed_kid
  exposed_kid-strip =
      ap
        (λ found. or_escape found >>= λ pick.
          or_fail (kid_or_latest pick (without_privates kv)) no_keys_in_store 400)
        (get_latest_exposable_key-timestamps now (λ id. get_id id kv.hpke_key_ids) _ _
          (λ k. ap timestamp_of (get_key-strip k) ∙ timestamp_of-strip (get_key k kv))
          kv.key_rotation (size kv))
      ∙ bind-same _ _ _
          (λ pick. ap (λ o. or_fail o no_keys_in_store 400) (kid_or_latest-strip pick))

  -- A step that takes out the private part of a key does not see whether it is there.
  found_key-strip :
      {A : Type 0} (k : String) (show : KeyItem → Handler A)
      → (or_fail (get_key k (without_privates kv)) (kid_not_found k) 404 >>= λ item.
          show (without_private item))
        ≡ (or_fail (get_key k kv) (kid_not_found k) 404 >>= λ item. show (without_private item))
  found_key-strip k show =
      ap (λ o. or_fail o (kid_not_found k) 404 >>= λ item. show (without_private item))
        (get_key-strip k)
      ∙ of_option (get_key k kv)
    where
      of_option :
          (o : Option KeyItem)
          → (or_fail (strip o) (kid_not_found k) 404 >>= λ item. show (without_private item))
            ≡ (or_fail o (kid_not_found k) 404 >>= λ item. show (without_private item))
      of_option none = refl
      of_option (some item) = refl

  list_keys-strip : list_keys ccf now (without_privates kv) ≡ list_keys ccf now kv
  unfolding list_keys
  list_keys-strip =
      ap
        (λ kid. kid >>= λ k.
          or_fail (get_key k (without_privates kv)) (kid_not_found k) 404 >>= λ item.
          or_escape (tink_public_keys ccf (without_private item ∷ [])) >>= pure)
        exposed_kid-strip
      ∙ bind-same _ _ _
          (λ k. found_key-strip k (λ item. or_escape (tink_public_keys ccf (item ∷ [])) >>= pure))

  -- What `listpubkeys` answers does not depend on the private parts of the stored keys.
  pub listpubkeys-without_privates :
      (request : Request)
      → listpubkeys ccf now (without_privates kv) request ≡ listpubkeys ccf now kv request
  unfolding listpubkeys service_request
  listpubkeys-without_privates request = then-same (service_request kv request) _ _ (λ _.
      ap
        (λ r.
          unless_failed r
            (catching endpoint_exception 500 (list_keys ccf now (without_privates kv))))
        (is_authenticated-keys kv _ request)
      ∙ ap (λ l. unless_failed (is_authenticated kv request) (catching endpoint_exception 500 l))
          list_keys-strip)

  asked_kid-strip :
      (sr : ServiceRequest) → asked_kid sr now (without_privates kv) ≡ asked_kid sr now kv
  unfolding asked_kid
  asked_kid-strip sr =
      ap
        (λ exposed. elim (query_value sr "kid") [
          | none ↦ exposed
          | some kid ↦ if kid == "" then exposed else pure kid
        ])
        exposed_kid-strip

  -- The rest of `show_key` for one key.
  shown_item : Format → (kid : String) → KeyItem → Handler PublicKey
  shown_item fmt kid item = do
    shown ← or_accepted (receipt ccf kid)
    or_escape (formatted ccf fmt shown (without_private (with_receipt shown item))) >>= pure

  show_key-strip :
      (sr : ServiceRequest) → show_key ccf now (without_privates kv) sr ≡ show_key ccf now kv sr
  unfolding show_key shown_item
  show_key-strip sr =
      ap
        (λ kid. kid >>= λ k. named_fmt sr >>= λ fmt.
          or_fail (get_key k (without_privates kv)) (kid_not_found k) 404 >>= λ item.
          shown_item fmt k item)
        (asked_kid-strip sr)
      ∙ bind-same _ _ _
          (λ k. bind-same (named_fmt sr) _ _ (λ fmt. found_key-strip k (shown_item fmt k)))

  -- What `pubkey` answers does not depend on the private parts of the stored keys.
  pub pubkey-without_privates :
      (request : Request) → pubkey ccf now (without_privates kv) request ≡ pubkey ccf now kv request
  unfolding pubkey service_request
  pubkey-without_privates request = then-same (service_request kv request) _ _ (λ sr.
      ap
        (λ r.
          unless_failed r
            (catching endpoint_exception 500 (show_key ccf now (without_privates kv) sr)))
        (is_authenticated-keys kv _ request)
      ∙ ap (λ l. unless_failed (is_authenticated kv request) (catching endpoint_exception 500 l))
          (show_key-strip sr))
