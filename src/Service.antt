-- ===== src/Service.antt =====
-- The service as a whole: its state is the store, and a step is a `refresh`, a governance action of
-- actions/actions.ts that CCF applies, or a proposal that `postProposals` accepts. The other handlers
-- only read.
pub mod Names
pub mod PolicyLists
pub mod Reachable
pub mod Keys
pub mod Availability
mod Tests
use depa_kms_gcp_oidc.Prelude.{ℕ, ◌≡◌, String, Option, some, List}
use depa_kms_gcp_oidc.Js.{Value}
use depa_kms_gcp_oidc.Ccf.{Ccf, EddsaKeys}
use depa_kms_gcp_oidc.ServiceResult.{returned}
use depa_kms_gcp_oidc.Repositories.{Kv}
use depa_kms_gcp_oidc.Authorization.{Request}
use depa_kms_gcp_oidc.Governance.Tables.{Action, action_of}
use depa_kms_gcp_oidc.Endpoints.Handler.{pure}
use depa_kms_gcp_oidc.Endpoints.Refresh.{refresh}
use depa_kms_gcp_oidc.Endpoints.Cose.{Cbor}
use depa_kms_gcp_oidc.Endpoints.Acl.{Roles}
use depa_kms_gcp_oidc.Endpoints.Proposals.{Proposal, ProposalResult, post_proposals}

pub data Step (ccf : Ccf) (cbor : Cbor) : Kv → Kv → Type 0 where
  refreshing :
      (generated : Option EddsaKeys) (created stamped : ℕ) (kv : Kv) (request : Request)
      → Step ccf cbor kv (refresh ccf generated created stamped kv request).1
  governing :
      (name : String) (action : Action) (args : Value) (kv kv' : Kv)
      → action_of name ≡ some action
      → action args kv ≡ returned kv'
      → Step ccf cbor kv kv'
  proposing :
      (acl : Option Roles) (kv : Kv) (proposal : Proposal) (results : List ProposalResult × Kv)
      → post_proposals ccf cbor acl kv proposal ≡ pure results
      → Step ccf cbor kv results.1

-- The states that a number of steps lead to.
pub data Reach (ccf : Ccf) (cbor : Cbor) (kv : Kv) : Kv → Type 0 where
  here : Reach ccf cbor kv kv
  then_step :
      {next after : Kv}
      → Reach ccf cbor kv next
      → Step ccf cbor next after
      → Reach ccf cbor kv after
