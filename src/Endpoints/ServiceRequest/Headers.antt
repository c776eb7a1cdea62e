-- ===== src/Endpoints/ServiceRequest/Headers.antt =====
-- src/utils/ServiceRequest.ts: the request id, and the headers that are printed with the request. The
-- headers are a table with text keys, as `request.headers` is.
use depa_kms_gcp_oidc.Prelude.{
  ℕ, ◌≡◌, refl, ap, ◌∙◌, inl, inr, String, Bool, true, false, not, ◌||◌, Option, none, some, List,
  [], ◌∷◌, ◌==◌, lookup, insert, erase, lookup-insert, lookup-erase, if◌then◌else◌, Bool-cases,
}
use depa_kms_gcp_oidc.Js.{decimal}
use depa_kms_gcp_oidc.Logger.{LogContext, set_request_id, given_id}

abbrev pub Headers : Type 0
Headers = List (String × String)

abbrev request_id_headers : List String
request_id_headers =
    "x-ms-kms-request-id" ∷ "x-ms-request-id" ∷ "x-request-id" ∷ "request-id" ∷ "requestid" ∷ []

-- The first of the headers that is there.
abbrev first_header : List String → Headers → Option String
unfolding lookup
first_header [] headers = none
first_header (name ∷ names) headers =
    let rest = first_header names headers in
    elim (lookup name headers) [ some value ↦ some value | none ↦ rest ]

abbrev or_else : Option String → Option String → Option String
or_else (some id) later = some id
or_else none later = later

-- The id of the request: that of the context, else that of a header, else the time; an empty one counts
-- as missing.
pub request_id : LogContext → Headers → (now : ℕ) → String
unfolding first_header decimal
request_id c headers now =
    elim (or_else (given_id c.request_id) (given_id (first_header request_id_headers headers))) [
      | some id ↦ id
      | none ↦ decimal now
    ]

pub request_context : LogContext → Headers → (now : ℕ) → LogContext
unfolding request_id
request_context c headers now = set_request_id (request_id c headers now) c

abbrev is_given : Option String → Bool
is_given none = false
is_given (some value) = not (value == "")

abbrev pub deleted : String
deleted = "token deleted for logging"

-- `otherHeaders`
pub other_headers : Headers → Headers
unfolding erase
other_headers headers = erase "authorization" (erase "Authorization" headers)

-- `requestWithoutAuth.headers`
pub logged_headers : Headers → Headers
unfolding other_headers lookup insert
logged_headers headers =
    if is_given (lookup "Authorization" headers) || is_given (lookup "authorization" headers)
    then insert "authorization" deleted (other_headers headers)
    else other_headers headers

-- The names under which the token is looked for.
abbrev pub is_token : String → Bool
is_token name = "authorization" == name || "Authorization" == name

abbrev pub has_token : Headers → Bool
unfolding lookup
has_token headers =
    is_given (lookup "Authorization" headers) || is_given (lookup "authorization" headers)

-- What is printed instead of a token.
abbrev pub instead_of_token : (has_token : Bool) → (name : String) → Option String
instead_of_token present name =
    if present then (if "authorization" == name then some deleted else none) else none

lookup-other_headers :
    (name : String) (headers : Headers)
    → lookup name (other_headers headers) ≡ (if is_token name then none else lookup name headers)
unfolding other_headers
lookup-other_headers name headers =
    lookup-erase "authorization" name (erase "Authorization" headers)
    ∙ ap (λ o. if "authorization" == name then none else o)
        (lookup-erase "Authorization" name headers)
    ∙ if_or ("authorization" == name) ("Authorization" == name)
  where
    if_or :
        (p q : Bool)
        → (if p then none else (if q then none else lookup name headers))
          ≡ (if p || q then none else lookup name headers)
    if_or true q = refl
    if_or false q = refl

-- Under the two names that a token is looked for under, the printed headers hold the text that stands
-- for a token or nothing, and under any other name what the headers of the request hold.
pub lookup-logged_headers :
    (name : String) (headers : Headers)
    → lookup name (logged_headers headers)
      ≡ (if is_token name then instead_of_token (has_token headers) name else lookup name headers)
unfolding logged_headers
lookup-logged_headers name headers = elim (Bool-cases (has_token headers)) [
  | inr no_token ↦ rw no_token (lookup-other_headers name headers)
  | inl token ↦ rw token (
      lookup-insert "authorization" name deleted (other_headers headers)
      ∙ ap (λ o. if "authorization" == name then some deleted else o)
          (lookup-other_headers name headers)
      ∙ if_token ("authorization" == name) ("Authorization" == name))
]
  where
    if_token :
        (p q : Bool)
        → (if p then some deleted else (if p || q then none else lookup name headers))
          ≡ (if p || q then (if p then some deleted else none) else lookup name headers)
    if_token true q = refl
    if_token false true = refl
    if_token false false = refl
