-- ===== src/Service/Reachable.antt =====
-- The states that the service can reach.
use mathlib.Core.Path.{subst}
use depa_kms_gcp_oidc.Prelude.{◌+◌, sym}
use depa_kms_gcp_oidc.KeyItem.{KeyItem}
use depa_kms_gcp_oidc.Ccf.{Ccf}
use depa_kms_gcp_oidc.Repositories.{Kv, size, store_key, store_key_id}
use depa_kms_gcp_oidc.Repositories.Numbering.{IsNumbered, stored-IsNumbered}
use depa_kms_gcp_oidc.Governance.KeyRelease.Contents.{AreLists}
use depa_kms_gcp_oidc.Governance.KeyRelease.Parts.{part_items}
use depa_kms_gcp_oidc.Governance.Tables.Frame.{action_of-Untouched}
use depa_kms_gcp_oidc.Endpoints.Refresh.{new_key, store_new_key}
use depa_kms_gcp_oidc.Endpoints.Refresh.Cases.{refresh-any}
use depa_kms_gcp_oidc.Endpoints.Cose.{Cbor}
use depa_kms_gcp_oidc.Endpoints.Proposals.Accepted.{
  save_proposal-SameKeys, Applied-Untouched, post_proposals_sound,
}
use depa_kms_gcp_oidc.Service.{Step, Reach}
use depa_kms_gcp_oidc.Service.Names.{
  KeepsNames, KeepsNames-refl, KeepsNames-trans, KeepsNames-same, IsNumbered-same,
  stored-KeepsNames,
}
use depa_kms_gcp_oidc.Service.PolicyLists.{
  HasPolicyLists, action_of-LeavesLists, Applied-LeavesLists,
}

-- The numbers of the keys are those from 1 to the size, and the claims of both key release policies
-- have lists.
pub record IsWellFormed (kv : Kv) : Type 0 where
  pub numbered : IsNumbered kv
  pub lists : HasPolicyLists kv

-- The well-formed states with all names kept.
Follows : Kv → Kv → Type 0
Follows kv kv' = IsWellFormed kv' × KeepsNames kv kv'

stored-Follows :
    (ccf : Ccf) (item : KeyItem) (kv : Kv)
    → IsWellFormed kv
    → Follows kv (store_new_key ccf (size kv + 1) item kv)
unfolding Follows store_key store_key_id
stored-Follows ccf item kv w = (
  record { numbered = stored-IsNumbered ccf item.kid item.x item kv w.numbered; lists = w.lists },
  stored-KeepsNames ccf item.kid item.x item kv w.numbered,
)

Step-Follows :
    (ccf : Ccf) (cbor : Cbor) {kv kv' : Kv}
    → IsWellFormed kv
    → Step ccf cbor kv kv'
    → Follows kv kv'
unfolding Follows
Step-Follows ccf cbor w (Step.refreshing generated created stamped kv request) =
    refresh-any (Follows kv) ccf stamped kv (w, KeepsNames-refl kv)
      (λ keys expiry. stored-Follows ccf (new_key ccf keys stamped expiry (size kv + 1)) kv w)
      generated created request
Step-Follows ccf cbor w (Step.governing name action args kv kv' known applied) =
    let (same, _) = action_of-Untouched name known args kv kv' applied in
    (
      record {
        numbered = IsNumbered-same same w.numbered;
        lists = action_of-LeavesLists name known args kv kv' applied w.lists;
      },
      KeepsNames-same same,
    )
Step-Follows ccf cbor w (Step.proposing acl kv proposal results posted) =
    let c = post_proposals_sound ccf cbor acl kv proposal posted in
    let (same, _) = Applied-Untouched c.applied in
    let (same', azure, gcp) =
      save_proposal-SameKeys ccf proposal.document c.created c.times c.after in
    let numbered = IsNumbered-same same' (IsNumbered-same same w.numbered) in
    let (lists, gcp_lists) = Applied-LeavesLists c.applied w.lists in
    subst (Follows kv) (sym c.saved) (
      record {
        numbered = numbered;
        lists = (
          subst (λ table. AreLists (part_items table "claims")) (sym azure) lists,
          subst (λ table. AreLists (part_items table "claims")) (sym gcp) gcp_lists,
        );
      },
      KeepsNames-trans (KeepsNames-same same) (KeepsNames-same same'),
    )

-- From a state whose numbers are exactly those from 1 to the size, each of a stored key, and whose key
-- release policies have lists, every state that the service reaches is such a state, has at least as
-- many numbers, and has the same key name under each number that was assigned.
pub Reach-IsWellFormed :
    (ccf : Ccf) (cbor : Cbor) {kv after : Kv}
    → IsWellFormed kv
    → Reach ccf cbor kv after
    → IsWellFormed after × KeepsNames kv after
unfolding Follows
Reach-IsWellFormed ccf cbor {kv} w Reach.here = (w, KeepsNames-refl kv)
Reach-IsWellFormed ccf cbor w (Reach.then_step before last) =
    let (w', kept) = Reach-IsWellFormed ccf cbor w before in
    let (w'', kept') = Step-Follows ccf cbor w' last in (w'', KeepsNames-trans kept kept')
