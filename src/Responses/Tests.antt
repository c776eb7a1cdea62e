-- ===== src/Responses/Tests.antt =====
-- The object of a failure, and of a success with no request id.
use depa_kms_gcp_oidc.Prelude.{◌≡◌, refl, String, true, false, none, some, [], ◌∷◌, insert}
use depa_kms_gcp_oidc.Js.{str}
use depa_kms_gcp_oidc.Logger.{LogContext, context_text, empty_context}
use depa_kms_gcp_oidc.Responses.{succeeded_response, failed_response, with_request_id}

abbrev context : LogContext
context = record { scope_stack = "pubkey" ∷ []; request_id = some "7" }

failed_run :
    failed_response {A = String} context none
      (record { error_message = "kid not found"; error_type = none })
      404
    ≡ record {
      body = none;
      error = some (record {
        error_message = "[requestId=7,scope=pubkey] kid not found";
        error_type = none;
      });
      success = false;
      failure = true;
      status_code = 404;
      status = "Error";
      headers = ("x-ms-kms-request-id", str "7") ∷ [];
    }
unfolding failed_response with_request_id insert context_text
failed_run = refl

succeeded_run : succeeded_response {A = String} empty_context none "key" ≡ record {
  body = some "key";
  error = none;
  success = true;
  failure = false;
  status_code = 200;
  status = "Success";
  headers = [];
}
unfolding succeeded_response with_request_id
succeeded_run = refl
