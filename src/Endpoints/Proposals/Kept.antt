-- ===== src/Endpoints/Proposals/Kept.antt =====
-- That an accepted proposal is not among those that `postProposals` deletes.
use mathlib.Core.Path.{subst}
use depa_kms_gcp_oidc.Prelude.{
  ℕ, ◌≡◌, refl, ap, ◌∙◌, inl, inr, String, false, Option, none, some, List, [], ◌∷◌, ◌==◌, All,
  lookup, insert, erase, lookup-insert, lookup-erase, eq_refl, arith, Bool-cases, Option-cases,
}
use depa_kms_gcp_oidc.Tooling.{Bytes}
use depa_kms_gcp_oidc.Ccf.{Ccf}
use depa_kms_gcp_oidc.ServiceResult.{returned, bind-eq-returned, returned-injective}
use depa_kms_gcp_oidc.Repositories.{Kv}
use depa_kms_gcp_oidc.Endpoints.Handler.{pure}
use depa_kms_gcp_oidc.Endpoints.KeyGeneration.{hex_hash}
use depa_kms_gcp_oidc.Endpoints.Cose.{Cbor, created_time}
use depa_kms_gcp_oidc.Endpoints.Acl.{Roles}
use depa_kms_gcp_oidc.Endpoints.Proposals.{
  Proposal, ProposalResult, Times, same_time, set_time, get_time, created_times, surplus,
  delete_times, keep_last, save_proposal, post_proposals,
}
use depa_kms_gcp_oidc.Endpoints.Proposals.Replay.{checked, created_then, times-IsUpTo}
use depa_kms_gcp_oidc.Endpoints.Proposals.Newest.{Has, IsThere, IsUpTo, set_time-All}
use depa_kms_gcp_oidc.Endpoints.Proposals.Surplus.{
  count, IsOnce, is_in, set_time-IsOnce, created_times-IsOnce, surplus-latest,
}

-- The identifiers of the map.
abbrev pub HasOther : String → Times → Type 0
HasOther id times = All (λ entry. (entry.1 == id) ≡ false) times

pub set_time-HasOther :
    (id old : String) (t : Option ℕ) (times : Times)
    → (old == id) ≡ false
    → HasOther id times
    → HasOther id (set_time t old times)
unfolding set_time
set_time-HasOther id old t [] other others = (other, tt)
set_time-HasOther id old t ((u, name) ∷ times) other (first, others) =
    elim (Bool-cases (same_time u t)) [
      | inl same ↦ rw (same, set_time) (other, others)
      | inr distinct ↦
          rw (distinct, set_time) (first, set_time-HasOther id old t times other others)
    ]

pub created_times-HasOther :
    (cbor : Cbor) (id : String) (proposals : List (String × Bytes)) (times : Times) {times' : Times}
    → created_times cbor proposals times ≡ returned times'
    → All (λ p. (p.0 == id) ≡ false) proposals
    → HasOther id times
    → HasOther id times'
unfolding created_times
created_times-HasOther cbor id [] times h new others =
    subst (HasOther id) (returned-injective h) others
created_times-HasOther cbor id ((name, document) ∷ proposals) times h (other, new) others =
    let (t, read, rest) = bind-eq-returned (created_time cbor document) _ h in
    created_times-HasOther cbor id proposals (set_time t name times) rest new
      (set_time-HasOther id name t times other others)

pub get_time-HasOther :
    (id : String) (u : Option ℕ) (times : Times) {name : String}
    → HasOther id times
    → get_time u times ≡ some name
    → (name == id) ≡ false
unfolding get_time
get_time-HasOther id u [] others h = cc
get_time-HasOther id u ((v, old) ∷ times) {name} (other, others) h =
    elim (Bool-cases (same_time v u)) [
      | inl here ↦ let h' = rw (here, get_time) at h in subst (λ n. (n == id) ≡ false) (cc h') other
      | inr later ↦ get_time-HasOther id u times others (rw (later, get_time) at h)
    ]

get_time-other :
    (id : String) (t u : Option ℕ) (times : Times) {name : String}
    → HasOther id times
    → same_time t u ≡ false
    → get_time u (set_time t id times) ≡ some name
    → (name == id) ≡ false
unfolding set_time get_time
get_time-other id t u [] others distinct h = let h' = rw distinct at h in cc
get_time-other id t u ((v, old) ∷ times) {name} (other, others) distinct h =
    elim (Bool-cases (same_time v t)) [
      | inl same ↦
          get_time-HasOther id u times others (rw (same, set_time, distinct, get_time) at h)
      | inr apart ↦
          let h' = rw (apart, set_time) at h in
          elim (Bool-cases (same_time v u)) [
            | inl here ↦ let h'' = rw here at h' in subst (λ n. (n == id) ≡ false) (cc h'') other
            | inr later ↦ get_time-other id t u times others distinct (rw later at h')
          ]
    ]

same_time_sym : (t u : Option ℕ) → same_time t u ≡ false → same_time u t ≡ false
unfolding same_time
same_time_sym none none h = h
same_time_sym none (some b) h = refl
same_time_sym (some a) none h = refl
same_time_sym (some a) (some b) h = ground arith

delete_times-lookup :
    (id : String) (t : Option ℕ) (ts : List (Option ℕ)) (times : Times)
    (proposals : List (String × Bytes))
    → HasOther id times
    → is_in t ts ≡ false
    → lookup id (delete_times ts (set_time t id times) proposals) ≡ lookup id proposals
unfolding delete_times is_in
delete_times-lookup id t [] times proposals others out = refl
delete_times-lookup id t (u ∷ ts) times proposals others out = elim (Bool-cases (same_time u t)) [
  | inl same ↦ let out' = rw same at out in cc
  | inr distinct ↦
      let out' = rw distinct at out in
      elim (Option-cases (get_time u (set_time t id times))) [
        | inl missing ↦
            rw (missing, delete_times) (delete_times-lookup id t ts times proposals others out')
        | inr (name, found) ↦
            let other = get_time-other id t u times others (same_time_sym u t distinct) found in
            rw (found, delete_times)
              (delete_times-lookup id t ts times (erase name proposals) others out'
                ∙ lookup-erase name id proposals
                ∙ rw other refl)
      ]
]

pub lookup-none-HasOther :
    (id : String) (proposals : List (String × Bytes))
    → lookup id proposals ≡ none
    → All (λ p. (p.0 == id) ≡ false) proposals
unfolding lookup
lookup-none-HasOther id [] h = tt
lookup-none-HasOther id ((name, document) ∷ proposals) h = elim (Bool-cases (name == id)) [
  | inl same ↦ let h' = rw (same, lookup) at h in cc
  | inr other ↦ (other, lookup-none-HasOther id proposals (rw (other, lookup) at h))
]

-- If every stored proposal has a created time and none has the identifier of the new one, then a
-- proposal with a created time that is accepted is in the table, under its identifier, once the
-- surplus ones have been deleted.
pub post_proposals-kept :
    (ccf : Ccf) (cbor : Cbor) (acl : Option Roles) (kv : Kv) (proposal : Proposal)
    (results : List ProposalResult × Kv) (t : ℕ)
    → All (Has IsThere cbor) kv.proposals
    → created_time cbor proposal.document ≡ returned (some t)
    → lookup (hex_hash ccf proposal.document) kv.proposals ≡ none
    → post_proposals ccf cbor acl kv proposal ≡ pure results
    → lookup (hex_hash ccf proposal.document) results.1.proposals ≡ some proposal.document
unfolding save_proposal keep_last IsOnce count
post_proposals-kept ccf cbor acl kv proposal results t there dated new accepted =
    let id = hex_hash ccf proposal.document in
    let c = checked ccf cbor acl kv proposal results t there dated accepted in
    let is_t = created_then ccf cbor acl kv proposal results t there dated accepted in
    let up = times-IsUpTo ccf cbor acl kv proposal results t there dated accepted in
    let once = created_times-IsOnce cbor kv.proposals [] c.stored_times (λ u. omega arith) in
    let others =
      created_times-HasOther cbor id kv.proposals [] c.stored_times
        (lookup-none-HasOther id kv.proposals new) tt in
    let times = set_time (some t) id c.times in
    let out =
      surplus-latest t times (set_time-All (IsUpTo t) (some t) id c.times (t, refl, omega arith) up)
        (set_time-IsOnce (some t) id c.times once) in
    let inserted = insert id proposal.document c.after.proposals in
    ap (λ k. lookup id k.proposals) c.saved
    ∙ ap (λ u. lookup id (keep_last (set_time u id c.times) inserted)) is_t
    ∙ delete_times-lookup id (some t) (surplus times) c.times inserted others out
    ∙ lookup-insert id id proposal.document c.after.proposals
    ∙ rw (eq_refl id) refl
