-- ===== src/Logger.antt =====
-- src/utils/Logger.ts: the context of a message, the levels, and the line that a message prints. The
-- level is a state that the requests of one interpreter share; the handlers are modelled without their messages.
pub mod Levels
mod Tests
use depa_kms_gcp_oidc.Prelude.{
  ℕ, String, Bool, true, false, Option, none, some, List, [], ◌∷◌, ◌++◌, map, ◌==◌, leb,
  if◌then◌else◌,
}
use depa_kms_gcp_oidc.Js.{
  Value, undefined, null, bool, num, str, arr, obj, concat, text_or_empty, member, truthy,
  to_string, is_nullish,
}
use depa_kms_gcp_oidc.ServiceResult.{type_error, Throws, returned, thrown}

pub data LogLevel : Type 0 where
  error warn info debug : LogLevel

-- The values of the enum.
abbrev pub rank : LogLevel → ℕ
rank error = 0
rank warn = 1
rank info = 2
rank debug = 3

pub record LogContext : Type 0 where
  pub scope_stack : List String
  pub request_id : Option String

abbrev pub empty_context : LogContext
empty_context = record { scope_stack = []; request_id = none }

pub append_scope : String → LogContext → LogContext
append_scope scope c = record c { scope_stack = c.scope_stack ++ scope ∷ [] }

-- `pop()`, which leaves an empty stack as it is
abbrev pub without_last : List String → List String
without_last [] = []
without_last (s ∷ []) = []
without_last (s ∷ (t ∷ ss)) = s ∷ without_last (t ∷ ss)

pub pop_scope : LogContext → LogContext
pop_scope c = record c { scope_stack = without_last c.scope_stack }

pub set_request_id : String → LogContext → LogContext
set_request_id id c = record c { request_id = some id }

pub get_base_scope : LogContext → Option String
get_base_scope c = elim c.scope_stack [ [] ↦ none | s ∷ _ ↦ some s ]

-- `join(separator)`
abbrev pub join : String → List String → String
join separator [] = ""
join separator (s ∷ []) = s
join separator (s ∷ (t ∷ ss)) = concat s (concat separator (join separator (t ∷ ss)))

pub get_formatted_scope_string : LogContext → String
get_formatted_scope_string c = join "->" c.scope_stack

pub clear : LogContext → LogContext
clear c = empty_context

-- `if (this.requestId)`: an empty text counts as missing.
abbrev pub given_id : Option String → Option String
given_id none = none
given_id (some id) = if id == "" then none else some id

pub clone : LogContext → LogContext
clone c = record { scope_stack = c.scope_stack; request_id = given_id c.request_id }

pub context_parts : LogContext → List String
unfolding get_formatted_scope_string
context_parts c =
    let scope = concat "scope=" (get_formatted_scope_string c) in
    elim (given_id c.request_id) [
      | none ↦ scope ∷ []
      | some id ↦ concat "requestId=" id ∷ scope ∷ []
    ]

-- `toString`
unfoldable pub context_text : LogContext → String
unfolding context_parts
context_text c = concat "[" (concat (join "," (context_parts c)) "]")

-- What may follow a message: a context or any other argument, undefined where there is none.
pub data ContextOrArg : Type 0 where
  context : LogContext → ContextOrArg
  other : Value → ContextOrArg

pub extract_context_and_args : ContextOrArg → List Value → Option LogContext × List Value
extract_context_and_args (context c) args = (some c, args)
extract_context_and_args (other v) args = (none, v ∷ args)

pub format_message_with_context : Option LogContext → String → String
unfolding context_text
format_message_with_context none message = message
format_message_with_context (some c) message = concat (context_text c) (concat " " message)

-- An argument in the line: `json` is `JSON.stringify(arg, null, 2)`; null is an object, too.
arg_text : (json : Value → String) → Value → String
unfolding to_string
arg_text json null = json null
arg_text json (arr vs) = json (arr vs)
arg_text json (obj fs) = json (obj fs)
arg_text json v = text_or_empty (to_string v)

pub get_remaining_args_string : (json : Value → String) → List Value → String
unfolding arg_text
get_remaining_args_string json args = join " " (map (arg_text json) args)

abbrev tag : LogLevel → String
tag error = "[ERROR] "
tag warn = "[WARN] "
tag info = "[INFO] "
tag debug = "[DEBUG] "

-- `error`, `warn`, `info` and `debug`: the line that is printed at the current level, none where the
-- method answers false.
pub log :
    (json : Value → String)
    → (current level : LogLevel) → String
    → ContextOrArg
    → List Value
    → Option String
unfolding extract_context_and_args format_message_with_context get_remaining_args_string
log json current level message first args =
    let (c, rest) = extract_context_and_args first args in
    let formatted = format_message_with_context c message in
    let remaining = get_remaining_args_string json rest in
    if leb (rank level) (rank current)
    then some (
        concat (tag level)
          (if remaining == "" then formatted else concat formatted (concat " " remaining)))
    else none

-- `secret`
pub secret : (current : LogLevel) → String → ContextOrArg → List Value → Option String
secret current message first args = none

-- `setLogLevelFromSettings`, with the settings that are loaded, and the TypeError of a missing service.
unfoldable pub set_log_level_from_settings : Value → LogLevel → Throws LogLevel
unfolding member truthy is_nullish
set_log_level_from_settings settings current =
    if is_nullish settings
    then thrown type_error
    else if is_nullish (member settings "service")
    then thrown type_error
    else returned (if truthy (member (member settings "service") "debug") then debug else current)

abbrev pub level_or : LogLevel → Throws LogLevel → LogLevel
level_or current (returned level) = level
level_or current (thrown _) = current

-- The level after a number of requests to one interpreter, each of which loads settings, and keeps the level where that
-- throws.
pub level_after : LogLevel → List Value → LogLevel
unfolding set_log_level_from_settings
level_after current [] = current
level_after current (settings ∷ requests) =
    level_after (level_or current (set_log_level_from_settings settings current)) requests
