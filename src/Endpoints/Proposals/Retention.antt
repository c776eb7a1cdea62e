-- ===== src/Endpoints/Proposals/Retention.antt =====
-- How many proposals the table holds once one more has been accepted.
use mathlib.Core.Path.{subst}
use depa_kms_gcp_oidc.Prelude.{
  ℕ, suc, ◌-◌, ◌≤◌, ◌≡◌, refl, sym, ap, ◌∙◌, inl, inr, String, false, Option, some, List, [], ◌∷◌,
  ◌==◌, leb, All, All-intro, All-weaken, length, lookup, lookup-insert, insert, eq_refl, arith,
  Bool-cases, if◌then◌else◌,
}
use depa_kms_gcp_oidc.Tooling.{Bytes}
use depa_kms_gcp_oidc.Ccf.{Ccf}
use depa_kms_gcp_oidc.ServiceResult.{returned, returned-injective}
use depa_kms_gcp_oidc.Repositories.{Kv}
use depa_kms_gcp_oidc.Endpoints.Handler.{pure}
use depa_kms_gcp_oidc.Endpoints.KeyGeneration.{hex_hash}
use depa_kms_gcp_oidc.Endpoints.Cose.{Cbor, created_time}
use depa_kms_gcp_oidc.Endpoints.Acl.{Roles}
use depa_kms_gcp_oidc.Endpoints.Proposals.{
  Proposal, ProposalResult, Times, same_time, set_time, get_time, created_times, keys, sorts_before,
  sort, take, surplus, keep_last, proposals_to_keep, save_proposal, post_proposals,
}
use depa_kms_gcp_oidc.Endpoints.Proposals.Listing.{length-sort, All-sort}
use depa_kms_gcp_oidc.Endpoints.Proposals.Newest.{Has, created_times-All}
use depa_kms_gcp_oidc.Endpoints.Proposals.Surplus.{
  count, IsOnce, count-sort, same_time_refl, set_time-IsOnce, created_times-IsOnce,
}
use depa_kms_gcp_oidc.Endpoints.Proposals.Kept.{lookup-none-HasOther, created_times-HasOther}
use depa_kms_gcp_oidc.Endpoints.Proposals.Accepted.{Applied-Untouched, post_proposals_sound}
use depa_kms_gcp_oidc.Endpoints.Proposals.Deleting.{
  StandsIn, AreApart-of_count, All-take, take-AreApart, length-take, length-delete_times,
}
use depa_kms_gcp_oidc.Endpoints.Proposals.Rows.{
  IsFresh, NamesApart, length-set_time, length-created_times, set_time-NamesApart,
  created_times-NamesApart, HasOwnNames-of_apart, set_time-names, created_times-names,
}
use depa_kms_gcp_oidc.Endpoints.Proposals.Orderly.{
  IsOrderly, IsNew, keep_last-IsOrderly, insert-IsOrderly, length-inserted,
}

length-keys : (times : Times) → length (keys times) ≡ length times
length-keys [] = refl
length-keys (entry ∷ times) = ap suc (length-keys times)

-- The name stands in the table.
abbrev IsListed : List (String × Bytes) → String → Type 0
IsListed proposals name = (document : Bytes) × (lookup name proposals ≡ some document)

All-IsListed : (proposals : List (String × Bytes)) → All (λ p. IsListed proposals p.0) proposals
unfolding lookup
All-IsListed [] = tt
All-IsListed ((name, document) ∷ proposals) =
    let whole = (name, document) ∷ proposals in
    (
      (document, rw (eq_refl name) refl),
      All-weaken
          (λ p found. elim (Bool-cases (name == p.0)) [
            | inl same ↦ (document, rw same refl)
            | inr other ↦ (found.0, rw other found.1)
          ])
          proposals (All-IsListed proposals),
    )

IsListed-insert :
    (id name : String) (document : Bytes) (proposals : List (String × Bytes))
    → IsListed proposals name
    → IsListed (insert id document proposals) name
IsListed-insert id name document proposals (old, found) =
    let asked = lookup-insert id name document proposals in
    elim (Bool-cases (id == name)) [
      | inl same ↦ (document, asked ∙ rw same refl)
      | inr other ↦ (old, asked ∙ rw other found)
    ]

-- Every time of a map whose names are in the table stands for a proposal.
All-stand :
    (proposals : List (String × Bytes)) (times : Times)
    → All (λ entry. IsListed proposals entry.1) times
    → All (StandsIn times proposals) (keys times)
unfolding get_time
All-stand proposals [] listed = tt
All-stand proposals ((u, name) ∷ times) ((document, found), listed) = (
  (name, document, rw (same_time_refl u) refl, found),
  All-weaken
      (λ v stands. elim (Bool-cases (same_time u v)) [
        | inl same ↦ (name, document, rw same refl, found)
        | inr other ↦ (stands.0, stands.1, rw other stands.2, stands.3)
      ])
      (keys times) (All-stand proposals times listed),
)

module _ (cbor : Cbor) (id : String) (document : Bytes) (t : Option ℕ) (times : Times)
    (proposals : List (String × Bytes)) (orderly : IsOrderly cbor proposals)
    (new : IsNew cbor id t proposals)
    (read : created_times cbor proposals [] ≡ returned times) where
  whole_map : Times
  whole_map = set_time t id times

  whole_map-IsOnce : IsOnce whole_map
  unfolding IsOnce count whole_map
  whole_map-IsOnce =
      set_time-IsOnce t id times (created_times-IsOnce cbor proposals [] read (λ u. omega arith))

  length-whole_map : length whole_map ≡ suc (length proposals)
  unfolding whole_map
  length-whole_map =
      let fresh =
        created_times-All (λ w. same_time w t ≡ false) cbor proposals [] read new.new_time tt in
      let unmapped : All (Has (IsFresh []) cbor) proposals =
        All-weaken (λ p has. (has.0, has.1, tt)) proposals new.new_time in
      let others = length-created_times cbor proposals [] read orderly.own_times unmapped in
      length-set_time t id times fresh ∙ ap suc (omega (arith, others))

  whole_map-NamesApart : NamesApart whole_map
  unfolding whole_map
  whole_map-NamesApart =
      let others =
        created_times-HasOther cbor id proposals [] read
          (lookup-none-HasOther id proposals new.new_name) tt in
      set_time-NamesApart t id times others (
        created_times-NamesApart cbor proposals [] read orderly.own_names
          (All-intro (λ _. tt) proposals) tt)

  whole_map-StandsIn : All (StandsIn whole_map (insert id document proposals)) (keys whole_map)
  unfolding whole_map
  whole_map-StandsIn =
      let table = insert id document proposals in
      let listed =
        All-weaken (λ p. IsListed-insert id p.0 document proposals) proposals
          (All-IsListed proposals) in
      All-stand table whole_map (
        set_time-names (IsListed table) t id times
          (document, lookup-insert id id document proposals ∙ rw (eq_refl id) refl)
          (created_times-names (IsListed table) cbor proposals [] read listed tt))

  -- The table with the proposal, and without those that go.
  length-kept :
      created_time cbor document ≡ returned t
      → length (keep_last whole_map (insert id document proposals)) ≡ (
          if leb (suc (length proposals)) proposals_to_keep
          then suc (length proposals)
          else proposals_to_keep)
  unfolding keep_last surplus IsOnce
  length-kept dated =
      let table = insert id document proposals in
      let sorted = sort sorts_before (keys whole_map) in
      let rows =
        length-sort sorts_before (keys whole_map) ∙ length-keys whole_map ∙ length-whole_map in
      let gone = length sorted - proposals_to_keep in
      let apart =
        AreApart-of_count sorted
          (λ u. subst (λ n. n ≤ 1) (sym (count-sort u (keys whole_map))) (whole_map-IsOnce u)) in
      let counted =
        length-delete_times (take gone sorted) whole_map table
          (HasOwnNames-of_apart whole_map whole_map-NamesApart) (take-AreApart gone sorted apart)
          (All-take _ gone sorted
            (All-sort sorts_before (StandsIn whole_map table) (keys whole_map) whole_map-StandsIn))
          (insert-IsOrderly cbor id document t proposals dated new orderly).own_names in
      let taken = length-take gone sorted (omega arith) in
      let inserted = length-inserted cbor id document t proposals dated new orderly in
      ground (arith, counted, taken, inserted, rows)

-- If neither an identifier nor a created time stands twice in the table, and a proposal is accepted
-- whose identifier and whose created time are new to it, then none stands twice afterwards, and the
-- table holds one proposal more, but five at most.
pub post_proposals-retention :
    (ccf : Ccf) (cbor : Cbor) (acl : Option Roles) (kv : Kv) (proposal : Proposal)
    (results : List ProposalResult × Kv) (t : Option ℕ)
    → IsOrderly cbor kv.proposals
    → created_time cbor proposal.document ≡ returned t
    → IsNew cbor (hex_hash ccf proposal.document) t kv.proposals
    → post_proposals ccf cbor acl kv proposal ≡ pure results
    → IsOrderly cbor results.1.proposals
      × (length results.1.proposals
          ≡ (if leb (suc (length kv.proposals)) 5 then suc (length kv.proposals) else 5))
unfolding save_proposal whole_map
post_proposals-retention ccf cbor acl kv proposal results t orderly dated new accepted =
    let id = hex_hash ccf proposal.document in
    let c = post_proposals_sound ccf cbor acl kv proposal accepted in
    let is_t : c.created ≡ t = returned-injective (sym c.dated ∙ dated) in
    let same = (Applied-Untouched c.applied).1 in
    let table : results.1.proposals
        ≡ keep_last (set_time t id c.times) (insert id proposal.document kv.proposals) =
      ap (λ k. k.proposals) c.saved
      ∙ ap (λ u. keep_last (set_time u id c.times) (insert id proposal.document c.after.proposals))
          is_t
      ∙ ap (λ ps. keep_last (set_time t id c.times) (insert id proposal.document ps)) same in
    subst
      (λ ps.
        IsOrderly cbor ps
        × (length ps
            ≡ (if leb (suc (length kv.proposals)) 5 then suc (length kv.proposals) else 5)))
      (sym table)
      (
        keep_last-IsOrderly cbor (set_time t id c.times) (insert id proposal.document kv.proposals)
            (insert-IsOrderly cbor id proposal.document t kv.proposals dated new orderly),
        length-kept cbor id proposal.document t c.times kv.proposals orderly new c.stored_times
            dated,
      )
