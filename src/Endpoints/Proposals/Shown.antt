-- ===== src/Endpoints/Proposals/Shown.antt =====
-- What `getProposals` shows.
use mathlib.Core.List.{Perm}
use depa_kms_gcp_oidc.Prelude.{
  ℕ, ◌≤◌, ◌≡◌, refl, ap, ◌∙◌, String, Bool, true, false, Option, none, some, List, [], ◌∷◌, map,
  All, arith, Bool-cases, inl, inr, lookup, eq_refl, eq_iff, HasUniqueKeys, ◌==◌,
}
use depa_kms_gcp_oidc.Tooling.{Bytes, array_buffer_to_hex}
use depa_kms_gcp_oidc.ServiceResult.{Throws, returned, thrown}
use depa_kms_gcp_oidc.Repositories.{Kv}
use depa_kms_gcp_oidc.Endpoints.Cose.{Cbor, created_time}
use depa_kms_gcp_oidc.Endpoints.Proposals.{
  put, sort, dated_ids, dated_before, shown_text, get_proposals,
}
use depa_kms_gcp_oidc.Endpoints.Proposals.Listing.{
  HasTime, IsDated, IsAscending, sort-perm, All-sort, sort-IsAscending, dated_before_total,
  dated_before_trans,
}

module _ {ℓ κ} {A : Type ℓ} {B : Type κ} (f : A → B) (le : B → B → Bool) where
  put-map :
      (a : A) (bs : List A) → put le (f a) (map f bs) ≡ map f (put (λ x y. le (f x) (f y)) a bs)
  unfolding put
  put-map a [] = refl
  put-map a (b ∷ bs) =
      let later = put-map a bs in
      elim (Bool-cases (le (f a) (f b))) [
        | inl before ↦ rw (before, put) refl
        | inr after ↦ rw (after, put) (ap (λ rest. f b ∷ rest) later)
      ]

  sort-map : (bs : List A) → sort le (map f bs) ≡ map f (sort (λ x y. le (f x) (f y)) bs)
  unfolding sort
  sort-map [] = refl
  sort-map (b ∷ bs) = ap (put le (f b)) (sort-map bs) ∙ put-map b (sort (λ x y. le (f x) (f y)) bs)

abbrev Entry : Type 0
Entry = String × Bytes

abbrev time_of : Throws (Option ℕ) → Option ℕ
time_of (returned t) = t
time_of (thrown e) = none

module _ (cbor : Cbor) where
  -- The first proposal has been created no later than the second.
  abbrev pub IsNoLater : Entry → Entry → Type 0
  IsNoLater a b =
      (t u : ℕ) × (created_time cbor a.1 ≡ returned (some t))
      × (created_time cbor b.1 ≡ returned (some u))
      × (t ≤ u)

  -- Each proposal has been created no later than all that come after it.
  abbrev pub IsInOrder : List Entry → Type 0
  IsInOrder [] = Unit
  IsInOrder (a ∷ bs) = All (IsNoLater a) bs × IsInOrder bs

  -- What a listing shows: the documents of the stored proposals, in some order by created time.
  pub record IsListing (proposals : List Entry) (texts : List String) : Type 0 where
    pub order : List Entry
    pub same : Perm order proposals
    pub ascending : IsInOrder order
    pub shown : texts ≡ map (λ entry. array_buffer_to_hex entry.1) order

  abbrev dated : Entry → String × Option ℕ
  dated entry = (entry.0, time_of (created_time cbor entry.1))

  abbrev before : Entry → Entry → Bool
  before a b = dated_before (dated a) (dated b)

  HasTime-IsDated : (entry : Entry) → HasTime cbor entry → IsDated (dated entry)
  HasTime-IsDated entry (t, h) = (t, ap time_of h)

  dated_ids-map :
      (proposals : List Entry)
      → All (HasTime cbor) proposals
      → dated_ids cbor proposals ≡ returned (map dated proposals)
  unfolding dated_ids
  dated_ids-map [] times = refl
  dated_ids-map ((id, document) ∷ proposals) ((t, read), times) =
      let later = dated_ids-map proposals times in rw (read, later) refl

  before-IsNoLater :
      (a b : Entry) → HasTime cbor a → HasTime cbor b → before a b ≡ true → IsNoLater a b
  before-IsNoLater a b (t, h) (u, h') first =
      let first' = rw (h, h') at first in (t, u, h, h', ground arith)

  All-IsNoLater :
      (a : Entry) (bs : List Entry)
      → HasTime cbor a
      → All (HasTime cbor) bs
      → All (λ b. before a b ≡ true) bs
      → All (IsNoLater a) bs
  All-IsNoLater a [] time times firsts = tt
  All-IsNoLater a (b ∷ bs) time (time', times) (first, firsts) =
      (before-IsNoLater a b time time' first, All-IsNoLater a bs time times firsts)

  IsAscending-IsInOrder :
      (bs : List Entry) → All (HasTime cbor) bs → IsAscending before bs → IsInOrder bs
  IsAscending-IsInOrder [] times ascending = tt
  IsAscending-IsInOrder (b ∷ bs) (time, times) (firsts, ascending) =
      (All-IsNoLater b bs time times firsts, IsAscending-IsInOrder bs times ascending)

  lookup-later :
      (key : String) (document : Bytes) (table es : List Entry)
      → All (λ entry. (entry.0 == key) ≡ false) es
      → All (λ entry. lookup entry.0 table ≡ some entry.1) es
      → All (λ entry. lookup entry.0 ((key, document) ∷ table) ≡ some entry.1) es
  unfolding lookup
  lookup-later key document table [] others found = tt
  lookup-later key document table (e ∷ es) (other, others) (here, found) = (
    ground (arith, eq_iff e.0 key, eq_iff key e.0),
    lookup-later key document table es others found,
  )

  -- Each entry of a table is the one that is found under its key.
  All-lookup :
      (table : List Entry)
      → HasUniqueKeys table
      → All (λ entry. lookup entry.0 table ≡ some entry.1) table
  unfolding lookup
  All-lookup [] unique = tt
  All-lookup ((key, document) ∷ table) (others, unique) =
      let first = eq_refl key in
      (rw first refl, lookup-later key document table table others (All-lookup table unique))

  shown_text-eq :
      (table : List Entry) (id : String) {document : Bytes}
      → lookup id table ≡ some document
      → shown_text table id ≡ array_buffer_to_hex document
  unfolding shown_text
  shown_text-eq table id found = rw (found, shown_text) refl

  shown_texts :
      (table es : List Entry)
      → All (λ entry. lookup entry.0 table ≡ some entry.1) es
      → map (λ entry. shown_text table entry.0) (map dated es)
        ≡ map (λ entry. array_buffer_to_hex entry.1) es
  shown_texts table [] found = refl
  shown_texts table (e ∷ es) (here, found) =
      cc (shown_text-eq table e.0 here, shown_texts table es found)

  -- With no identifier twice among the stored proposals and a created time for each of them,
  -- `getProposals` returns the hexadecimal texts of their documents, each once and in ascending order of
  -- the created times.
  pub get_proposals-IsListing :
      (kv : Kv)
      → HasUniqueKeys kv.proposals
      → All (HasTime cbor) kv.proposals
      → (texts : List String) × (get_proposals cbor kv ≡ returned texts)
        × IsListing kv.proposals texts
  unfolding get_proposals
  get_proposals-IsListing kv unique times =
      let proposals = kv.proposals in
      let order = sort before proposals in
      let (ascending, timed) =
        sort-IsAscending before (HasTime cbor) (λ a b. dated_before_total (dated a) (dated b))
          (λ a b c p q r.
            dated_before_trans (dated a) (dated b) (dated c) (HasTime-IsDated a p)
              (HasTime-IsDated b q) (HasTime-IsDated c r))
          proposals times in
      let found = All-sort before _ proposals (All-lookup proposals unique) in
      (
        map (λ entry. array_buffer_to_hex entry.1) order,
        rw (dated_ids-map proposals times, sort-map dated dated_before proposals)
            (ap returned (shown_texts proposals order found)),
        record {
          order = order;
          same = sort-perm before proposals;
          ascending = IsAscending-IsInOrder order timed ascending;
          shown = refl;
        },
      )
