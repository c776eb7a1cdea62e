-- ===== src/Endpoints/ServiceRequest.antt =====
-- src/utils/ServiceRequest.ts and src/policies/Settings.ts: what a handler reads of a request. Where
-- the settings cannot be read, the body and the query are left undefined; where they have no service,
-- the constructor throws.
pub mod Headers
use depa_kms_gcp_oidc.Prelude.{
  String, Bool, true, false, Option, none, some, List, [], lookup, ◌==◌, if◌then◌else◌,
}
use depa_kms_gcp_oidc.Js.{Value, end, field, obj, str, bool}
use depa_kms_gcp_oidc.ServiceResult.{Throws, returned, thrown, settings_unparsable}
use depa_kms_gcp_oidc.Tooling.{query_params}
use depa_kms_gcp_oidc.Repositories.{Kv}
use depa_kms_gcp_oidc.Authorization.{Request}
use depa_kms_gcp_oidc.Logger.{set_log_level_from_settings, info}

unfoldable pub default_settings : Value
default_settings = obj (
    field "service"
      (obj (
        field "name" (str "azure-privacy-sandbox-kms") (
          field "description" (str "Key Management Service")
            (field "version" (str "1.0.0") (field "debug" (bool false) end)))))
      end)

-- `Settings.loadSettingsFromMap`
unfoldable pub load_settings_from_map : Kv → Throws Value
unfolding lookup default_settings
load_settings_from_map kv = elim (lookup "settings_policy" kv.settings) [
  | none ↦ returned default_settings
  | some none ↦ thrown settings_unparsable
  | some (some settings) ↦ returned settings
]

pub record ServiceRequest : Type 0 where
  pub success : Bool
  pub body : Option Value
  pub query : List (String × Option String)

-- The constructor. `Logger.setLogLevelFromSettings` throws where the settings have no `service`, and the
-- level that it sets does not matter here; what follows it in `Settings.logSettings` reads the same fields.
unfoldable pub service_request : Kv → Request → Throws ServiceRequest
unfolding load_settings_from_map query_params set_log_level_from_settings
service_request kv request = elim (load_settings_from_map kv) [
  | thrown _ ↦ returned (record { success = false; body = none; query = [] })
  | returned settings ↦ elim (set_log_level_from_settings settings info) [
    | thrown e ↦ thrown e
    | returned _ ↦
        returned
          (record { success = true; body = request.body; query = query_params request.query })
  ]
]

-- `serviceRequest.query?.[name]`
unfoldable pub query_value : ServiceRequest → String → Option String
unfolding lookup
query_value sr name = elim (lookup name sr.query) [ none ↦ none | some value ↦ value ]

pub data Format : Type 0 where
  jwk tink : Format

-- `serviceRequest.query?.["fmt"] || "jwk"`, if it is one of the two formats.
named_format : String → Option Format
named_format fmt =
    if fmt == ""
    then some jwk
    else if fmt == "jwk"
    then some jwk
    else if fmt == "tink"
    then some tink
    else none

unfoldable pub format_of : ServiceRequest → Option Format
unfolding query_value named_format
format_of sr = elim (query_value sr "fmt") [ none ↦ some jwk | some fmt ↦ named_format fmt ]
