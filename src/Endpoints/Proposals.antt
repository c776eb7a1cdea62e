-- ===== src/Endpoints/Proposals.antt =====
-- src/endpoints/proposals.ts: the endpoint that accepts governance proposals, and the one that shows the
-- last of them. A failure and an exception store nothing, since CCF then drops the transaction; a
-- success comes with the new store.
pub mod Listing
pub mod Shown
pub mod Accepted
pub mod Newest
pub mod Replay
pub mod Surplus
pub mod Kept
pub mod Deleting
pub mod Rows
pub mod Orderly
pub mod Retention
mod Tests
use depa_kms_gcp_oidc.Prelude.{
  ℕ, zero, suc, ◌-◌, String, Bool, true, false, not, ◌||◌, ◌&&◌, Option, none, some, List, [], ◌∷◌,
  map, ◌==◌, ltb, leb, eqb, length, lookup, insert, erase, if◌then◌else◌,
}
use depa_kms_gcp_oidc.Js.{
  Value, str, arr, elems, member, truthy, chars, codes, concat, as_array, includes,
}
use depa_kms_gcp_oidc.Tooling.{Bytes, array_buffer_to_hex}
use depa_kms_gcp_oidc.Ccf.{Ccf}
use depa_kms_gcp_oidc.ServiceResult.{
  type_error, callee_error, unexpected_auth, caller_id_undefined, no_append_permission,
  proposal_too_old, proposal_not_found, Throws, returned, thrown, or_throw, ServiceResult,
}
use depa_kms_gcp_oidc.Repositories.{Kv}
use depa_kms_gcp_oidc.Authorization.{Caller, user_cose_sign1, Request, is_authenticated}
use depa_kms_gcp_oidc.Governance.Tables.{Action, attribute, action_of}
use depa_kms_gcp_oidc.Endpoints.ServiceRequest.{service_request}
use depa_kms_gcp_oidc.Endpoints.Handler.{
  Handler, ◌>>=◌, ◌>>◌, pure, guard, or_fail, or_escape, passes,
}
use depa_kms_gcp_oidc.Endpoints.KeyGeneration.{hex_hash}
use depa_kms_gcp_oidc.Endpoints.Acl.{Roles, acl_checks}
use depa_kms_gcp_oidc.Endpoints.Cose.{Cbor, created_time}
use depa_kms_gcp_oidc.ServiceResult

pub record Proposal : Type 0 where
  pub request : Request
  -- `request.body.arrayBuffer()`
  pub document : Bytes
  -- the JSON value of `caller.cose.content`, none where reading it throws
  pub content : Option Value

-- `IProposalResult`, but for the votes, which are empty.
pub record ProposalResult : Type 0 where
  pub ballot_count : ℕ
  pub proposal_id : String
  pub proposer_id : String
  pub state : String

abbrev proposals_to_keep : ℕ
proposals_to_keep = 5

-- A map from created times to identifiers; a time that is there keeps its place.
abbrev pub Times : Type 0
Times = List (Option ℕ × String)

pub same_time : Option ℕ → Option ℕ → Bool
same_time none none = true
same_time (some a) (some b) = eqb a b
same_time _ _ = false

pub set_time : Option ℕ → String → Times → Times
unfolding same_time
set_time t id [] = (t, id) ∷ []
set_time t id ((u, old) ∷ times) =
    if same_time u t then (t, id) ∷ times else (u, old) ∷ set_time t id times

pub get_time : Option ℕ → Times → Option String
unfolding same_time
get_time t [] = none
get_time t ((u, id) ∷ times) = if same_time u t then some id else get_time t times

pub created_times : Cbor → List (String × Bytes) → Times → Throws Times
unfolding set_time
created_times cbor [] times = returned times
created_times cbor ((id, document) ∷ proposals) times =
    ServiceResult.◌>>=◌ (created_time cbor document)
      λ t. created_times cbor proposals (set_time t id times)

abbrev pub keys : Times → List (Option ℕ)
keys = map (λ entry. entry.0)

-- `Math.max(...)`, where `none` is NaN; of no times it is -∞, for which 0 stands: no time is less.
pub latest : List (Option ℕ) → Option ℕ
latest [] = some 0
latest (none ∷ times) = none
latest (some t ∷ times) = elim (latest times) [
  | none ↦ none
  | some m ↦ some (if ltb m t then t else m)
]

-- `<`, which fails on undefined and on NaN
abbrev pub is_before : Option ℕ → Option ℕ → Bool
is_before (some a) (some b) = ltb a b
is_before _ _ = false

-- The order in which `sort` puts the times: undefined goes to the end.
abbrev pub sorts_before : Option ℕ → Option ℕ → Bool
sorts_before (some a) (some b) = leb a b
sorts_before none (some b) = false
sorts_before _ none = true

-- The elements in ascending order, equal ones in the order they had; `le` compares two of them.
module _ {ℓ} {A : Type ℓ} (le : A → A → Bool) where
  pub put : A → List A → List A
  put a [] = a ∷ []
  put a (b ∷ bs) = let rest = put a bs in if le a b then a ∷ (b ∷ bs) else b ∷ rest

  pub sort : List A → List A
  unfolding put
  sort [] = []
  sort (a ∷ bs) = put a (sort bs)

abbrev pub take {ℓ} : {A : Type ℓ} → ℕ → List A → List A
take zero xs = []
take (suc n) [] = []
take (suc n) (x ∷ xs) = x ∷ take n xs

pub delete_times : List (Option ℕ) → Times → List (String × Bytes) → List (String × Bytes)
unfolding get_time erase
delete_times [] times proposals = proposals
delete_times (t ∷ ts) times proposals =
    delete_times ts times
      (elim (get_time t times) [ none ↦ proposals | some id ↦ erase id proposals ])

-- The times of the proposals that go: all but the last ones.
pub surplus : Times → List (Option ℕ)
unfolding sort
surplus times =
    let sorted = sort sorts_before (keys times) in take (length sorted - proposals_to_keep) sorted

-- The loop that keeps the last proposals.
pub keep_last : Times → List (String × Bytes) → List (String × Bytes)
unfolding delete_times surplus
keep_last times proposals = delete_times (surplus times) times proposals

-- `actions.get(name)`
abbrev named_action : Value → Option Action
unfolding action_of
named_action (str name) = action_of name
named_action _ = none

-- What `for ... of` goes over.
abbrev pub iterated : Value → Throws (List Value)
iterated (arr vs) = returned (elems vs)
iterated (str s) = returned (map str (chars s))
iterated _ = thrown type_error

pub proposed_actions : Value → Throws (List Value)
unfolding truthy member
proposed_actions body =
    if truthy body && truthy (member body "actions")
    then iterated (member body "actions")
    else returned []

-- The loop over the actions.
pub apply_actions : Ccf → (proposer : String) → List Value → Kv → Handler (List ProposalResult × Kv)
unfolding attribute member named_action
apply_actions ccf proposer [] kv = pure ([], kv)
apply_actions ccf proposer (a ∷ actions) kv = do
  name ← or_escape (attribute a "name")
  action ← or_fail (named_action name) proposal_not_found 404
  kv' ← or_escape (action (member a "args") kv)
  buffer ← or_escape (or_throw callee_error (ccf.json_buffer (member a "args")))
  rest ← apply_actions ccf proposer actions kv'
  let result : ProposalResult = record {
    ballot_count = 0;
    proposal_id = hex_hash ccf buffer;
    proposer_id = proposer;
    state = "Accepted";
  }
  pure (result ∷ rest.0, rest.1)

-- `request.caller.id`; only a signed request has a content, which has been read by then
proposer_of : Option Caller → String
proposer_of (some (user_cose_sign1 id _)) = id
proposer_of _ = ""

-- The proposal goes to the table, and the last ones are kept.
pub save_proposal : Ccf → Bytes → Option ℕ → Times → Kv → Kv
unfolding set_time keep_last insert
save_proposal ccf document created times kv =
    let id = hex_hash ccf document in
    record kv {
      proposals = keep_last (set_time created id times) (insert id document kv.proposals);
    }

pub post_proposals :
    Ccf → Cbor → (acl : Option Roles) → Kv → Proposal → Handler (List ProposalResult × Kv)
unfolding acl_checks created_times latest proposed_actions apply_actions save_proposal proposer_of
post_proposals ccf cbor acl kv proposal = or_escape (service_request kv proposal.request) >>= λ _.
    passes (is_authenticated kv proposal.request) >>= λ _. do
      acl_checks acl proposal.request.caller
      body ← or_escape (or_throw type_error proposal.content)
      times ← or_escape (created_times cbor kv.proposals [])
      created ← or_escape (created_time cbor proposal.document)
      guard (not (is_before created (latest (keys times)))) proposal_too_old 400
      actions ← or_escape (proposed_actions body)
      applied ← apply_actions ccf (proposer_of proposal.request.caller) actions kv
      pure (applied.0, save_proposal ccf proposal.document created times applied.1)

-- The identifier of each proposal with its created time.
pub dated_ids : Cbor → List (String × Bytes) → Throws (List (String × Option ℕ))
dated_ids cbor [] = returned []
dated_ids cbor ((id, document) ∷ proposals) =
    ServiceResult.◌>>=◌ (created_time cbor document)
      λ t. ServiceResult.◌>>=◌ (dated_ids cbor proposals) λ rest. returned ((id, t) ∷ rest)

-- `(a, b) => a[1] - b[1]`, where NaN counts as zero: what `sort` makes of that is up to the language.
abbrev pub dated_before : String × Option ℕ → String × Option ℕ → Bool
dated_before (_, some a) (_, some b) = leb a b
dated_before _ _ = true

-- A missing proposal would print as the empty text.
pub shown_text : List (String × Bytes) → String → String
unfolding lookup array_buffer_to_hex
shown_text proposals id = elim (lookup id proposals) [
  | none ↦ ""
  | some document ↦ array_buffer_to_hex document
]

pub get_proposals : Cbor → Kv → Throws (List String)
unfolding dated_ids sort shown_text
get_proposals cbor kv =
    ServiceResult.◌>>=◌ (dated_ids cbor kv.proposals)
      λ dated. returned (map (λ entry. shown_text kv.proposals entry.0) (sort dated_before dated))
