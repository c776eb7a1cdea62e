-- ===== src/Endpoints/Proposals/Accepted.antt =====
-- What has been checked when `postProposals` accepts a proposal, and what it has changed.
use mathlib.Core.Path.{subst}
use depa_kms_gcp_oidc.Prelude.{
  ℕ, ◌≡◌, refl, sym, ap, ◌∙◌, String, Bool, true, false, not, Option, none, some, List, [], ◌∷◌,
  ◌==◌, lookup,
}
use depa_kms_gcp_oidc.Js.{Value, chars, str, arr, member, undefined, null, bool, num, obj}
use depa_kms_gcp_oidc.Tooling.{Bytes}
use depa_kms_gcp_oidc.Ccf.{Ccf}
use depa_kms_gcp_oidc.ServiceResult.{
  type_error, callee_error, unexpected_auth, caller_id_undefined, proposal_too_old,
  proposal_not_found, returned, or_throw, success, or_throw-eq-returned,
}
use depa_kms_gcp_oidc.Repositories.{Kv}
use depa_kms_gcp_oidc.Authorization.{Caller, is_authenticated}
use depa_kms_gcp_oidc.Governance.Tables.{Action, attribute, action_of}
use depa_kms_gcp_oidc.Governance.Tables.Effects.{attribute-eq-returned}
use depa_kms_gcp_oidc.Governance.Tables.Frame.{SameKeys, Untouched, action_of-Untouched}
use depa_kms_gcp_oidc.Endpoints.ServiceRequest.{service_request}
use depa_kms_gcp_oidc.Endpoints.Handler.{
  pure, guard, or_fail, or_escape, passes, bind-eq-pure, pure-injective, guard-eq-pure,
  or_fail-eq-pure, or_escape-eq-pure, passes-success,
}
use depa_kms_gcp_oidc.Endpoints.Cose.{Cbor, created_time}
use depa_kms_gcp_oidc.Endpoints.Acl.{
  Roles, check_acl, acl_checks, cose_user, roles_of, quoted_name, fingerprint, may_append,
}
use depa_kms_gcp_oidc.Endpoints.Proposals.{
  Proposal, ProposalResult, Times, created_times, keys, latest, is_before, named_action,
  proposed_actions, apply_actions, proposer_of, save_proposal, post_proposals,
}

not-true : (b : Bool) → not b ≡ true → b ≡ false
not-true false h = refl
not-true true h = cc

-- The actions, one after the other: each is known, and applied to the store that the last one left.
pub data Applied : List Value → Kv → Kv → Type 0 where
  done : {kv : Kv} → Applied [] kv kv
  step :
      {kv next after : Kv} {a : Value} {actions : List Value} (name : String) (action : Action)
      → member a "name" ≡ str name
      → action_of name ≡ some action
      → action (member a "args") kv ≡ returned next
      → Applied actions next after
      → Applied (a ∷ actions) kv after

named_action-eq-some :
    (v : Value) {action : Action}
    → named_action v ≡ some action
    → (name : String) × (v ≡ str name) × (action_of name ≡ some action)
unfolding named_action
named_action-eq-some (str name) h = (name, refl, h)
named_action-eq-some undefined h = cc
named_action-eq-some null h = cc
named_action-eq-some (bool b) h = cc
named_action-eq-some (num n) h = cc
named_action-eq-some (arr vs) h = cc
named_action-eq-some (obj fs) h = cc

apply_actions-Applied :
    (ccf : Ccf) (proposer : String) (actions : List Value) (kv : Kv)
    {results : List ProposalResult × Kv}
    → apply_actions ccf proposer actions kv ≡ pure results
    → Applied actions kv results.1
unfolding apply_actions
apply_actions-Applied ccf proposer [] kv h =
    subst (λ r. Applied [] kv r.1) (pure-injective h) Applied.done
apply_actions-Applied ccf proposer (a ∷ actions) kv h =
    let (name, h1, k1) = bind-eq-pure (or_escape (attribute a "name")) _ h in
    let (action, h2, k2) = bind-eq-pure (or_fail (named_action name) proposal_not_found 404) _ k1 in
    let (next, h3, k3) = bind-eq-pure (or_escape (action (member a "args") kv)) _ k2 in
    let (buffer, h4, k4) =
      bind-eq-pure (or_escape (or_throw callee_error (ccf.json_buffer (member a "args")))) _ k3 in
    let (rest, h5, k5) = bind-eq-pure (apply_actions ccf proposer actions next) _ k4 in
    let (text, named, known) = named_action-eq-some name (or_fail-eq-pure _ _ _ h2) in
    let read = attribute-eq-returned a "name" (or_escape-eq-pure _ h1) in
    subst (λ r. Applied (a ∷ actions) kv r.1) (pure-injective k5)
      (Applied.step text action (read ∙ named) known (or_escape-eq-pure _ h3)
        (apply_actions-Applied ccf proposer actions next h5))

pub Applied-Untouched :
    {actions : List Value} {kv after : Kv} → Applied actions kv after → Untouched kv after
Applied-Untouched Applied.done = (record { hpke_keys = refl; hpke_key_ids = refl }, refl)
Applied-Untouched
      (Applied.step {kv = kv} {next = next} {a = a} name action named known applied rest) =
    let (first, same) = action_of-Untouched name known (member a "args") kv next applied in
    let (later, same') = Applied-Untouched rest in
    (
      record {
        hpke_keys = later.hpke_keys ∙ first.hpke_keys;
        hpke_key_ids = later.hpke_key_ids ∙ first.hpke_key_ids;
      },
      same' ∙ same,
    )

-- What is saved with a proposal leaves the keys and the policies alone.
pub save_proposal-SameKeys :
    (ccf : Ccf) (document : Bytes) (created : Option ℕ) (times : Times) (kv : Kv)
    → SameKeys kv (save_proposal ccf document created times kv)
      × ((save_proposal ccf document created times kv).key_release ≡ kv.key_release)
      × ((save_proposal ccf document created times kv).gcp_key_release ≡ kv.gcp_key_release)
unfolding save_proposal
save_proposal-SameKeys ccf document created times kv =
    (record { hpke_keys = refl; hpke_key_ids = refl }, refl, refl)

-- Under an `acl` the caller has signed the proposal and may append to the ledger.
pub data IsPermitted (caller : Option Caller) : Option Roles → Type 0 where
  no_acl : IsPermitted caller none
  by_role :
      (table : Roles) (id : String) (roles : Value)
      → cose_user caller ≡ returned (some id)
      → roles_of (lookup (quoted_name id) table) ≡ returned roles
      → may_append roles ≡ true
      → IsPermitted caller (some table)

check_acl-IsPermitted :
    (table : Roles) (caller : Option Caller) {u : Unit {0}}
    → check_acl table caller ≡ pure u
    → IsPermitted caller (some table)
unfolding check_acl
check_acl-IsPermitted table caller h =
    let (user, h1, k1) = bind-eq-pure (or_escape (cose_user caller)) _ h in
    let (id, h2, k2) = bind-eq-pure (or_fail user unexpected_auth 500) _ k1 in
    let (_, _, k3) =
      bind-eq-pure (guard (not (fingerprint (chars id) == "")) caller_id_undefined 500) _ k2 in
    let (roles, h4, k4) =
      bind-eq-pure (or_escape (roles_of (lookup (quoted_name id) table))) _ k3 in
    IsPermitted.by_role table id roles
      (or_escape-eq-pure _ h1 ∙ ap returned (or_fail-eq-pure user _ _ h2)) (or_escape-eq-pure _ h4)
      (guard-eq-pure _ _ _ k4)

-- What has been checked of an accepted proposal, and what it has changed: the actions of its content,
-- and then the table of the proposals.
pub record IsAccepted (ccf : Ccf) (cbor : Cbor) (acl : Option Roles) (kv : Kv) (proposal : Proposal)
    (kv' : Kv) : Type 0 where
  pub body : Value
  pub actions : List Value
  pub times : Times
  pub created : Option ℕ
  pub after : Kv
  pub authenticated : success (is_authenticated kv proposal.request) ≡ true
  pub permitted : IsPermitted proposal.request.caller acl
  pub content : proposal.content ≡ some body
  pub stored_times : created_times cbor kv.proposals [] ≡ returned times
  pub dated : created_time cbor proposal.document ≡ returned created
  pub not_too_old : is_before created (latest (keys times)) ≡ false
  pub proposed : proposed_actions body ≡ returned actions
  pub applied : Applied actions kv after
  pub saved : kv' ≡ save_proposal ccf proposal.document created times after

IsPermitted-of_checks :
    (acl : Option Roles) (caller : Option Caller) {u : Unit {0}}
    → acl_checks acl caller ≡ pure u
    → IsPermitted caller acl
unfolding acl_checks
IsPermitted-of_checks none caller h = IsPermitted.no_acl
IsPermitted-of_checks (some table) caller h = check_acl-IsPermitted table caller h

-- `postProposals` accepts a proposal only if the request passes the authentication, the caller may
-- append to the ledger where there are roles, and its created time is not before the latest of the
-- stored ones; then every action it proposes is known and has been applied in order, and the proposal
-- is saved on what they left.
pub post_proposals_sound :
    (ccf : Ccf) (cbor : Cbor) (acl : Option Roles) (kv : Kv) (proposal : Proposal)
    {results : List ProposalResult × Kv}
    → post_proposals ccf cbor acl kv proposal ≡ pure results
    → IsAccepted ccf cbor acl kv proposal results.1
unfolding post_proposals
post_proposals_sound ccf cbor acl kv proposal h =
    let (_, _, k) = bind-eq-pure (or_escape (service_request kv proposal.request)) _ h in
    let (r, h0, k0) = bind-eq-pure (passes (is_authenticated kv proposal.request)) _ k in
    let (_, h1, k1) = bind-eq-pure (acl_checks acl proposal.request.caller) _ k0 in
    let (body, h2, k2) = bind-eq-pure (or_escape (or_throw type_error proposal.content)) _ k1 in
    let (times, h3, k3) = bind-eq-pure (or_escape (created_times cbor kv.proposals [])) _ k2 in
    let (created, h4, k4) = bind-eq-pure (or_escape (created_time cbor proposal.document)) _ k3 in
    let (_, h5, k5) =
      bind-eq-pure (guard (not (is_before created (latest (keys times)))) proposal_too_old 400) _
        k4 in
    let (actions, h6, k6) = bind-eq-pure (or_escape (proposed_actions body)) _ k5 in
    let (ran, h7, k7) =
      bind-eq-pure (apply_actions ccf (proposer_of proposal.request.caller) actions kv) _ k6 in
    record {
      body = body;
      actions = actions;
      times = times;
      created = created;
      after = ran.1;
      authenticated = passes-success (is_authenticated kv proposal.request) h0;
      permitted = IsPermitted-of_checks acl proposal.request.caller h1;
      content = or_throw-eq-returned type_error _ (or_escape-eq-pure _ h2);
      stored_times = or_escape-eq-pure _ h3;
      dated = or_escape-eq-pure _ h4;
      not_too_old = not-true _ (guard-eq-pure _ _ _ h5);
      proposed = or_escape-eq-pure _ h6;
      applied = apply_actions-Applied ccf (proposer_of proposal.request.caller) actions kv h7;
      saved = sym (ap (λ r. r.1) (pure-injective k7));
    }
