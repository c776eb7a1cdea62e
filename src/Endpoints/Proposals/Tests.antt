-- ===== src/Endpoints/Proposals/Tests.antt =====
-- Runs of the endpoint of the proposals.
use depa_kms_gcp_oidc.Governance.Tables.{set_jwt_validation_policy}
use depa_kms_gcp_oidc.Prelude.{
  lookup, ℕ, ◌≡◌, refl, Option, none, some, [], ◌∷◌, All, length, HasUniqueKeys, List, String,
}
use depa_kms_gcp_oidc.Js.{Value, str, arr, obj, nil, cons, end, field}
use depa_kms_gcp_oidc.Tooling.{Bytes, array_buffer_to_hex}
use depa_kms_gcp_oidc.ServiceResult.{returned}
use depa_kms_gcp_oidc.Fixtures.{runtime, store, token_policy}
use depa_kms_gcp_oidc.Repositories.{Kv}
use depa_kms_gcp_oidc.Authorization.{Request, user_cose_sign1, is_authenticated}
use depa_kms_gcp_oidc.Endpoints.ServiceRequest.{service_request}
use depa_kms_gcp_oidc.Endpoints.Handler.{pure}
use depa_kms_gcp_oidc.Endpoints.Cose.{Cbor, created_time}
use depa_kms_gcp_oidc.Endpoints.Acl.{Roles}
use depa_kms_gcp_oidc.Endpoints.Proposals.{
  Proposal, ProposalResult, Times, created_times, post_proposals, same_time, get_proposals,
}
use depa_kms_gcp_oidc.Endpoints.Proposals.Listing.{HasTime}
use depa_kms_gcp_oidc.Endpoints.Proposals.Shown.{IsListing, get_proposals-IsListing}
use depa_kms_gcp_oidc.Endpoints.Proposals.Accepted.{IsAccepted, post_proposals_sound}
use depa_kms_gcp_oidc.Endpoints.Proposals.Newest.{Has, IsThere, IsUpTo}
use depa_kms_gcp_oidc.Endpoints.KeyGeneration.{hex_hash}
use depa_kms_gcp_oidc.Endpoints.Proposals.Kept.{post_proposals-kept}
use depa_kms_gcp_oidc.Endpoints.Proposals.Orderly.{IsOrderly, IsNew}
use depa_kms_gcp_oidc.Endpoints.Proposals.Retention.{post_proposals-retention}
use depa_kms_gcp_oidc.Endpoints.Proposals.Replay.{post_proposals-newest}

abbrev first_byte : Bytes → Option ℕ
first_byte [] = none
first_byte (b ∷ _) = some b

-- A document is its header, and the header its created time.
abbrev pub decoder : Cbor
decoder = record { first_part = λ d. some (some d); created_at = λ h. some (first_byte h) }

abbrev pub roles : Roles
roles = ("\"AB:12\"", some (arr (cons (str "Contributor") nil))) ∷ []

abbrev signed : Request
signed = record {
  caller = some (user_cose_sign1 "ab12" 1);
  body = none;
  body_length = 1;
  query = "";
}

abbrev content : Value
content = obj (
    field "actions"
      (arr (
        cons
          (obj (
            field "name" (str "set_jwt_validation_policy") (
              field "args"
                (obj (field "issuer" (str "other") (field "validation_policy" token_policy end)))
                end)))
          nil))
      end)

abbrev pub proposal : Proposal
proposal = record { request = signed; document = 9 ∷ []; content = some content }

abbrev pub before : Kv
before = record store { proposals = ("01", 7 ∷ []) ∷ ("02", 4 ∷ []) ∷ [] }

abbrev pub after : Kv
after = record store {
  jwt_validation = ("issuer", some token_policy) ∷ ("other", some token_policy) ∷ [];
  proposals = ("01", 7 ∷ []) ∷ ("02", 4 ∷ []) ∷ ("ab", 9 ∷ []) ∷ [];
}

abbrev pub result : ProposalResult
result = record { ballot_count = 0; proposal_id = "ab"; proposer_id = "ab12"; state = "Accepted" }

pub post_run :
    post_proposals runtime decoder (some roles) before proposal ≡ pure (result ∷ [], after)
unfolding post_proposals service_request is_authenticated created_time set_jwt_validation_policy
    array_buffer_to_hex
post_run = refl

post_proposals_sound_example : IsAccepted runtime decoder (some roles) before proposal after
post_proposals_sound_example =
    post_proposals_sound runtime decoder (some roles) before proposal post_run

before_dated : All (Has IsThere decoder) before.proposals
unfolding created_time
before_dated = ((some 7, refl, (7, refl)), ((some 4, refl, (4, refl)), tt))

document_time : created_time decoder (9 ∷ []) ≡ returned (some 9)
unfolding created_time
document_time = refl

post_proposals-newest_example :
    All (Has (IsUpTo 9) decoder) before.proposals × All (Has (IsUpTo 9) decoder) after.proposals
post_proposals-newest_example =
    post_proposals-newest runtime decoder (some roles) before proposal (result ∷ [], after) 9
      before_dated document_time post_run

new_run : lookup (hex_hash runtime (9 ∷ [])) before.proposals ≡ none
unfolding array_buffer_to_hex lookup
new_run = refl

post_proposals-kept_example : lookup (hex_hash runtime (9 ∷ [])) after.proposals ≡ some (9 ∷ [])
post_proposals-kept_example =
    post_proposals-kept runtime decoder (some roles) before proposal (result ∷ [], after) 9
      before_dated document_time new_run post_run

abbrev times_after : Times
times_after = (some 7, "01") ∷ (some 4, "02") ∷ (some 9, "ab") ∷ []

times_run : created_times decoder after.proposals [] ≡ returned times_after
unfolding created_times created_time
times_run = refl

after_dated : All (HasTime decoder) after.proposals
unfolding created_time
after_dated = ((7, refl), ((4, refl), ((9, refl), tt)))

get_run : get_proposals decoder after ≡ returned ("04" ∷ "07" ∷ "09" ∷ [])
unfolding get_proposals created_time
get_run = refl

after_unique : HasUniqueKeys after.proposals
after_unique = ((refl, (refl, tt)), ((refl, tt), (tt, tt)))

get_proposals-IsListing_example :
    (texts : List String) × (get_proposals decoder after ≡ returned texts)
    × IsListing decoder after.proposals texts
get_proposals-IsListing_example = get_proposals-IsListing decoder after after_unique after_dated

-- Of six proposals with different created times the earliest goes.
abbrev full : Kv
full = record store {
  proposals =
      ("01", 3 ∷ []) ∷ ("02", 1 ∷ []) ∷ ("03", 2 ∷ []) ∷ ("04", 5 ∷ []) ∷ ("05", 4 ∷ []) ∷ [];
}

abbrev empty_proposal : Proposal
empty_proposal = record proposal { content = some (obj end) }

abbrev kept : Kv
kept = record store {
  proposals =
      ("01", 3 ∷ []) ∷ ("03", 2 ∷ []) ∷ ("04", 5 ∷ []) ∷ ("05", 4 ∷ []) ∷ ("ab", 9 ∷ []) ∷ [];
}

keep_run : post_proposals runtime decoder none full empty_proposal ≡ pure ([], kept)
unfolding post_proposals service_request is_authenticated created_time array_buffer_to_hex
keep_run = refl

full-IsOrderly : IsOrderly decoder full.proposals
unfolding created_time same_time
full-IsOrderly = record {
  own_names = (
    (refl, (refl, (refl, (refl, tt)))),
    ((refl, (refl, (refl, tt))), ((refl, (refl, tt)), ((refl, tt), (tt, tt)))),
  );
  own_times = (
    (
      some 3,
      refl,
      (
        (some 1, refl, refl),
        ((some 2, refl, refl), ((some 5, refl, refl), ((some 4, refl, refl), tt))),
      ),
    ),
    (
      (some 1, refl, ((some 2, refl, refl), ((some 5, refl, refl), ((some 4, refl, refl), tt)))),
      (
        (some 2, refl, ((some 5, refl, refl), ((some 4, refl, refl), tt))),
        ((some 5, refl, ((some 4, refl, refl), tt)), ((some 4, refl, tt), tt)),
      ),
    ),
  );
}

nine-IsNew : IsNew decoder (hex_hash runtime (9 ∷ [])) (some 9) full.proposals
unfolding created_time array_buffer_to_hex lookup same_time
nine-IsNew = record {
  new_name = refl;
  new_time = (
    (some 3, refl, refl),
    (
      (some 1, refl, refl),
      ((some 2, refl, refl), ((some 5, refl, refl), ((some 4, refl, refl), tt))),
    ),
  );
}

post_proposals-retention_example : IsOrderly decoder kept.proposals × (length kept.proposals ≡ 5)
post_proposals-retention_example =
    post_proposals-retention runtime decoder none full empty_proposal ([], kept) (some 9)
      full-IsOrderly document_time nine-IsNew keep_run

-- With equal created times more than five stay.
abbrev crowded : Kv
crowded = record store {
  proposals =
      ("01", 9 ∷ []) ∷ ("02", 9 ∷ []) ∷ ("03", 9 ∷ []) ∷ ("04", 9 ∷ []) ∷ ("05", 9 ∷ []) ∷ [];
}

abbrev still_crowded : Kv
still_crowded = record store {
  proposals =
      ("01", 9 ∷ [])
      ∷ ("02", 9 ∷ [])
      ∷ ("03", 9 ∷ [])
      ∷ ("04", 9 ∷ [])
      ∷ ("05", 9 ∷ [])
      ∷ ("ab", 9 ∷ [])
      ∷ [];
}

crowd_run : post_proposals runtime decoder none crowded empty_proposal ≡ pure ([], still_crowded)
unfolding post_proposals service_request is_authenticated created_time array_buffer_to_hex
crowd_run = refl
