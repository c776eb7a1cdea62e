-- ===== src/Responses.antt =====
-- src/utils/ServiceResult.ts and KmsError.ts: the objects that results are, with their headers, and
-- the texts of errors. A handler is modelled with `ServiceResult`, which leaves out the headers and has
-- messages for errors.
mod Tests
use depa_kms_gcp_oidc.Prelude.{
  ℕ, String, Bool, true, false, not, Option, none, some, List, [], ◌∷◌, insert, if◌then◌else◌,
}
use depa_kms_gcp_oidc.Js.{Value, str, num, of_ℕ, concat}
use depa_kms_gcp_oidc.ServiceResult.{ErrorMessage, ServiceResult}
use depa_kms_gcp_oidc.ServiceResult
use depa_kms_gcp_oidc.Logger.{LogContext, given_id, context_text}

abbrev pub Headers : Type 0
Headers = List (String × Value)

-- The `details` are never set.
pub record ErrorResponse : Type 0 where
  pub error_message : String
  pub error_type : Option String

pub record Response (A : Type 0) : Type 0 where
  pub body : Option A
  pub error : Option ErrorResponse
  pub success : Bool
  pub failure : Bool
  pub status_code : ℕ
  pub status : String
  pub headers : Headers

abbrev pub kms_request_id_header : String
kms_request_id_header = "x-ms-kms-request-id"

-- `headers ? headers : {}`
abbrev pub or_no_headers : Option Headers → Headers
or_no_headers none = []
or_no_headers (some headers) = headers

-- The constructor.
abbrev pub new_response :
    {A : Type 0}
    → Option A
    → Option ErrorResponse
    → (success : Bool) → (status_code : ℕ) → Option Headers
    → Response A
new_response body error success status_code headers = record {
  body = body;
  error = error;
  success = success;
  failure = not success;
  status_code = status_code;
  status = if success then "Success" else "Error";
  headers = or_no_headers headers;
}

with_request_id : LogContext → Headers → Headers
unfolding insert
with_request_id c headers = elim (given_id c.request_id) [
  | none ↦ headers
  | some id ↦ insert kms_request_id_header (str id) headers
]

module _ {A : Type 0} where
  pub succeeded_response : LogContext → Option Headers → A → Response A
  unfolding with_request_id
  succeeded_response c headers body =
      new_response (some body) none true 200 (some (with_request_id c (or_no_headers headers)))

  pub accepted_response : LogContext → Response A
  unfolding with_request_id
  accepted_response c =
      new_response none none true 202
        (some (with_request_id c (("retry-after", num (of_ℕ 3)) ∷ [])))

  pub failed_response : LogContext → Option Headers → ErrorResponse → (status_code : ℕ) → Response A
  unfolding with_request_id
  failed_response c headers error status_code =
      let shown : ErrorResponse = record error {
        error_message = concat (context_text c) (concat " " error.error_message);
      } in
      new_response none (some shown) false status_code
        (some (with_request_id c (or_no_headers headers)))

-- The message of a `KmsError`.
pub kms_error : Option LogContext → String → String
kms_error none message = message
kms_error (some c) message = concat (context_text c) (concat " " message)

-- `toString`; the name is that of all errors.
pub kms_error_text : Option LogContext → String → String
unfolding kms_error
kms_error_text c message = concat "Error: " (kms_error c message)
