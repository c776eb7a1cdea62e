-- ===== src/Logger/Tests.antt =====
-- Runs of the log.
use depa_kms_gcp_oidc.Prelude.{
  ◌≡◌, refl, String, true, none, some, [], ◌∷◌, any, leb, if◌then◌else◌,
}
use depa_kms_gcp_oidc.Js.{Value, num, bool, obj, field, end, of_ℕ}
use depa_kms_gcp_oidc.Endpoints.ServiceRequest.{default_settings}
use depa_kms_gcp_oidc.Logger.{
  info, debug, rank, LogContext, empty_context, append_scope, set_request_id, clone, pop_scope,
  context, log, level_after,
}
use depa_kms_gcp_oidc.Logger.Levels.{asks_for_debug, is_printed, log-level_after}

abbrev json : Value → String
json _ = "{}"

abbrev scoped : LogContext
scoped = set_request_id "7" (append_scope "b" (append_scope "a" empty_context))

log_run :
    log json info info "m" (context scoped) (num (of_ℕ 5) ∷ obj end ∷ [])
    ≡ some "[INFO] [requestId=7,scope=a->b] m 5 {}"
unfolding log set_request_id append_scope
log_run = refl

low_run : log json info debug "m" (context (pop_scope (clone scoped))) [] ≡ none
unfolding log
low_run = refl

abbrev debug_settings : Value
debug_settings = obj (field "service" (obj (field "debug" (bool true) end)) end)

log-level_after_example :
    is_printed (
      log json
        (level_after info (debug_settings ∷ default_settings ∷ []))
        debug
        "m"
        (context scoped)
        [])
    ≡ leb
        (rank debug)
        (rank (if any asks_for_debug (debug_settings ∷ default_settings ∷ []) then debug else info))
log-level_after_example =
    log-level_after json info debug (debug_settings ∷ default_settings ∷ []) "m" (context scoped) []
