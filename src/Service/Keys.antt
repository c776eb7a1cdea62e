-- ===== src/Service/Keys.antt =====
-- The keys of the service: that they stay, and that they can be asked for.
use mathlib.Core.Path.{subst}
use depa_kms_gcp_oidc.Prelude.{
  ℕ, ◌+◌, ◌≡◌, sym, ap, ◌∙◌, inl, inr, String, Option, some, List, ◌==◌, lookup, eq_iff, eqb, arith,
  Bool-cases,
}
use depa_kms_gcp_oidc.Prelude.Int.{ℤ}
use depa_kms_gcp_oidc.KeyItem.{KeyItem}
use depa_kms_gcp_oidc.Ccf.{Ccf, EddsaKeys}
use depa_kms_gcp_oidc.Repositories.{Kv, size, get_id, get_key}
use depa_kms_gcp_oidc.Repositories.Numbering.{IsNumbered, get_id-stored, get_key-stored}
use depa_kms_gcp_oidc.Governance.Tables.Frame.{SameKeys, action_of-Untouched}
use depa_kms_gcp_oidc.Endpoints.Refresh.{new_key, store_new_key}
use depa_kms_gcp_oidc.Endpoints.Refresh.Cases.{refresh-any}
use depa_kms_gcp_oidc.Endpoints.Refresh.Names.{
  IsNameOf, IsNameOf-injective, new_key-IsNameOf, IsNamed,
}
use depa_kms_gcp_oidc.Endpoints.Cose.{Cbor}
use depa_kms_gcp_oidc.Endpoints.Handler.{pure}
use depa_kms_gcp_oidc.Endpoints.Acl.{Roles}
use depa_kms_gcp_oidc.Endpoints.Proposals.{Proposal, ProposalResult, post_proposals}
use depa_kms_gcp_oidc.Endpoints.Proposals.Accepted.{
  save_proposal-SameKeys, Applied-Untouched, post_proposals_sound,
}
use depa_kms_gcp_oidc.Service.{Step, Reach}
use depa_kms_gcp_oidc.Service.Names.{KeepsNames}
use depa_kms_gcp_oidc.Service.Reachable.{IsWellFormed, Reach-IsWellFormed}

-- A key whose name is assigned a number is stored unchanged.
abbrev pub KeepsKeys : Kv → Kv → Type 0
KeepsKeys kv kv' =
    (i : ℕ) (kid : String) (item : KeyItem)
    → get_id i kv.hpke_key_ids ≡ some kid
    → get_key kid kv ≡ some item
    → get_key kid kv' ≡ some item

KeepsKeys-refl : (kv : Kv) → KeepsKeys kv kv
KeepsKeys-refl kv i kid item numbered found = found

KeepsKeys-trans :
    (kv next after : Kv)
    → KeepsNames kv next
    → KeepsKeys kv next
    → KeepsKeys next after
    → KeepsKeys kv after
KeepsKeys-trans kv next after names first second i kid item numbered found =
    second i kid item (names.same_name i kid numbered) (first i kid item numbered found)

KeepsKeys-same : {kv kv' : Kv} → SameKeys kv kv' → KeepsKeys kv kv'
unfolding get_key
KeepsKeys-same same i kid item numbered found = ap (lookup kid) same.hpke_keys ∙ found

IsNamed-same : {kv kv' : Kv} → SameKeys kv kv' → IsNamed kv → IsNamed kv'
IsNamed-same same named i kid numbered =
    named i kid (sym (ap (get_id i) same.hpke_key_ids) ∙ numbered)

posted-SameKeys :
    (ccf : Ccf) (cbor : Cbor) (acl : Option Roles) (kv : Kv) (proposal : Proposal)
    (results : List ProposalResult × Kv)
    → post_proposals ccf cbor acl kv proposal ≡ pure results
    → SameKeys kv results.1
posted-SameKeys ccf cbor acl kv proposal results posted =
    let c = post_proposals_sound ccf cbor acl kv proposal posted in
    let (same, _) = Applied-Untouched c.applied in
    let (same', _, _) = save_proposal-SameKeys ccf proposal.document c.created c.times c.after in
    subst (SameKeys kv) (sym c.saved) (record {
      hpke_keys = same'.hpke_keys ∙ same.hpke_keys;
      hpke_key_ids = same'.hpke_key_ids ∙ same.hpke_key_ids;
    })

-- What the steps keep beside the well-formedness.
abbrev Keeps : Kv → Kv → Type 0
Keeps kv kv' = IsNamed kv' × KeepsKeys kv kv'

module _ (ccf : Ccf) (kv : Kv) (n : IsNumbered kv) (named : IsNamed kv) where
  stored-Keeps :
      (stamped : ℕ) (keys : EddsaKeys) (expiry : Option ℤ)
      → Keeps kv
          (store_new_key ccf (size kv + 1) (new_key ccf keys stamped expiry (size kv + 1)) kv)
  stored-Keeps stamped keys expiry =
      let id = size kv + 1 in
      let item = new_key ccf keys stamped expiry id in
      let own = new_key-IsNameOf ccf keys stamped expiry id in
      (
        λ i kid numbered. elim (Bool-cases (eqb i id)) [
          | inl new ↦
              let is_id : i ≡ id = ground arith in
              let given =
                rw new at (sym (get_id-stored ccf item.kid item.x item kv n i) ∙ numbered) in
              let name : item.kid ≡ kid = cc given in
              subst (λ j. IsNameOf j kid) (sym is_id) (subst (IsNameOf id) name own)
          | inr old ↦
              named i kid
                (rw old at (sym (get_id-stored ccf item.kid item.x item kv n i) ∙ numbered))
        ],
        λ i kid old numbered found. elim (Bool-cases (item.kid == kid)) [
          | inl same ↦
              let name = (eq_iff item.kid kid).0 same in
              let is_id =
                IsNameOf-injective i id kid (named i kid numbered) (subst (IsNameOf id) name own) in
              let beyond = n.beyond i (omega (arith, is_id)) in cc
          | inr other ↦ get_key-stored ccf item.kid item.x item kv n kid ∙ rw other found
        ],
      )

  Step-Keeps : (cbor : Cbor) {kv' : Kv} → Step ccf cbor kv kv' → Keeps kv kv'
  Step-Keeps cbor (Step.refreshing generated created stamped kv request) =
      refresh-any (Keeps kv) ccf stamped kv (named, KeepsKeys-refl kv)
        (λ keys expiry. stored-Keeps stamped keys expiry) generated created request
  Step-Keeps cbor (Step.governing name action args kv kv' known applied) =
      let (same, _) = action_of-Untouched name known args kv kv' applied in
      (IsNamed-same same named, KeepsKeys-same same)
  Step-Keeps cbor (Step.proposing acl kv proposal results posted) =
      let same = posted-SameKeys ccf cbor acl kv proposal results posted in
      (IsNamed-same same named, KeepsKeys-same same)

-- From a well-formed state in which each number is assigned a name that ends with it, every state that
-- the service reaches has such names too, and still has every numbered key, unchanged.
pub Reach-KeepsKeys :
    (ccf : Ccf) (cbor : Cbor) {kv after : Kv}
    → IsWellFormed kv
    → IsNamed kv
    → Reach ccf cbor kv after
    → IsNamed after × KeepsKeys kv after
Reach-KeepsKeys ccf cbor {kv} w named Reach.here = (named, KeepsKeys-refl kv)
Reach-KeepsKeys ccf cbor {kv} {after} w named (Reach.then_step {next = next} before last) =
    let (named', kept) = Reach-KeepsKeys ccf cbor w named before in
    let (w', names) = Reach-IsWellFormed ccf cbor w before in
    let (named'', kept') = Step-Keeps ccf next w'.numbered named' cbor last in
    (named'', KeepsKeys-trans kv next after names kept kept')
