-- ===== src/Endpoints/Proposals/Replay.antt =====
-- The created times in the table once a proposal is accepted, and the same proposal posted again.
use mathlib.Core.Path.{subst}
use depa_kms_gcp_oidc.Prelude.{
  ℕ, ◌≡◌, refl, sym, ap, ◌∙◌, false, Option, some, List, [], All, insert, insert-All, arith,
}
use depa_kms_gcp_oidc.Ccf.{Ccf}
use depa_kms_gcp_oidc.ServiceResult.{returned, returned-injective}
use depa_kms_gcp_oidc.Repositories.{Kv}
use depa_kms_gcp_oidc.Endpoints.Handler.{pure}
use depa_kms_gcp_oidc.Endpoints.KeyGeneration.{hex_hash}
use depa_kms_gcp_oidc.Endpoints.Cose.{Cbor, created_time}
use depa_kms_gcp_oidc.Endpoints.Acl.{Roles}
use depa_kms_gcp_oidc.Endpoints.Proposals.{
  Proposal, ProposalResult, Times, created_times, keys, latest, is_before, set_time, save_proposal,
  post_proposals,
}
use depa_kms_gcp_oidc.Endpoints.Proposals.Newest.{
  Has, IsThere, IsUpTo, created_times-Has, created_times-All, latest_up_to, IsUpTo-of_not_before,
  keep_last-All,
}
use depa_kms_gcp_oidc.Endpoints.Proposals.Accepted.{
  IsAccepted, Applied-Untouched, post_proposals_sound,
}

module _ (ccf : Ccf) (cbor : Cbor) (acl : Option Roles) (kv : Kv) (proposal : Proposal)
    (results : List ProposalResult × Kv) (t : ℕ) (there : All (Has IsThere cbor) kv.proposals)
    (dated : created_time cbor proposal.document ≡ returned (some t))
    (accepted : post_proposals ccf cbor acl kv proposal ≡ pure results) where
  pub checked : IsAccepted ccf cbor acl kv proposal results.1
  checked = post_proposals_sound ccf cbor acl kv proposal accepted

  pub created_then : checked.created ≡ some t
  created_then = returned-injective (sym checked.dated ∙ dated)

  pub times-IsUpTo : All (IsUpTo t) (keys checked.times)
  times-IsUpTo =
      let times_there =
        created_times-All IsThere cbor kv.proposals [] checked.stored_times there tt in
      let not_before =
        subst (λ c. is_before c (latest (keys checked.times)) ≡ false) created_then
          checked.not_too_old in
      IsUpTo-of_not_before t (keys checked.times) times_there not_before

  none_later : All (Has (IsUpTo t) cbor) kv.proposals
  none_later =
      (created_times-Has (IsUpTo t) cbor kv.proposals [] checked.stored_times times-IsUpTo).0

  -- If every stored proposal has a created time and one with the time `t` is accepted, then no proposal
  -- of the table was later than `t` before, and none is afterwards.
  pub post_proposals-newest :
      All (Has (IsUpTo t) cbor) kv.proposals × All (Has (IsUpTo t) cbor) results.1.proposals
  unfolding save_proposal
  post_proposals-newest =
      let id = hex_hash ccf proposal.document in
      let same = (Applied-Untouched checked.applied).1 in
      let before = subst (All (Has (IsUpTo t) cbor)) (sym same) none_later in
      let inserted =
        insert-All (Has (IsUpTo t) cbor) id proposal.document checked.after.proposals
          (some t, dated, (t, refl, omega arith)) before in
      let kept =
        keep_last-All (Has (IsUpTo t) cbor) (set_time checked.created id checked.times)
          (insert id proposal.document checked.after.proposals) inserted in
      (
        none_later,
        subst (All (Has (IsUpTo t) cbor)) (sym (ap (λ k. k.proposals) checked.saved)) kept,
      )

  -- Then the check on the created time lets the same proposal through again.
  pub post_proposals-replay :
      (times : Times)
      → created_times cbor results.1.proposals [] ≡ returned times
      → is_before (some t) (latest (keys times)) ≡ false
  post_proposals-replay times h =
      latest_up_to t (keys times)
        (created_times-All (IsUpTo t) cbor results.1.proposals [] h post_proposals-newest.1 tt)
