-- ===== src/Logger/Levels.antt =====
-- src/utils/Logger.ts: which messages are printed, request after request.
use depa_kms_gcp_oidc.Prelude.{
  ◌≡◌, refl, ap, ◌∙◌, String, Bool, true, false, not, ◌&&◌, Option, none, some, List, [], ◌∷◌, any,
  arith, leb, Bool-cases, inl, inr, if◌then◌else◌,
}
use depa_kms_gcp_oidc.Js.{Value, member, truthy, is_nullish}
use depa_kms_gcp_oidc.Logger.{
  LogLevel, debug, rank, ContextOrArg, log, set_log_level_from_settings, level_or, level_after,
}

-- The settings can be read, and their debug flag is set.
abbrev pub asks_for_debug : Value → Bool
unfolding member truthy is_nullish
asks_for_debug settings =
    not (is_nullish settings)
    && not (is_nullish (member settings "service"))
    && truthy (member (member settings "service") "debug")

set_log_level_lem :
    (settings : Value) (current : LogLevel)
    → level_or current (set_log_level_from_settings settings current)
      ≡ (if asks_for_debug settings then debug else current)
unfolding set_log_level_from_settings
set_log_level_lem settings current = elim (Bool-cases (is_nullish settings)) [
  | inl missing ↦ rw missing refl
  | inr there ↦ elim (Bool-cases (is_nullish (member settings "service"))) [
    | inl missing ↦ rw (there, missing) refl
    | inr service ↦ rw (there, service) refl
  ]
]

level_after-eq :
    (current : LogLevel) (requests : List Value)
    → level_after current requests ≡ (if any asks_for_debug requests then debug else current)
unfolding level_after
level_after-eq current [] = refl
level_after-eq current (settings ∷ requests) =
    ap (λ level. level_after level requests) (set_log_level_lem settings current)
    ∙ level_after-eq (if asks_for_debug settings then debug else current) requests
    ∙ ground arith

abbrev pub is_printed : Option String → Bool
is_printed none = false
is_printed (some line) = true

log-printed :
    (json : Value → String) (current level : LogLevel) (message : String) (first : ContextOrArg)
    (args : List Value)
    → is_printed (log json current level message first args) ≡ leb (rank level) (rank current)
unfolding log
log-printed json current level message first args =
    elim (Bool-cases (leb (rank level) (rank current))) [
      | inl enough ↦ rw enough refl
      | inr low ↦ rw low refl
    ]

-- After any requests to one interpreter a message is printed exactly if its level is at most that of
-- debugging, where the settings of one of the requests asked for it, even if those of later ones do
-- not, and else at most the level that was set before.
pub log-level_after :
    (json : Value → String) (current level : LogLevel) (requests : List Value) (message : String)
    (first : ContextOrArg) (args : List Value)
    → is_printed (log json (level_after current requests) level message first args)
      ≡ leb (rank level) (rank (if any asks_for_debug requests then debug else current))
log-level_after json current level requests message first args =
    log-printed json (level_after current requests) level message first args
    ∙ ap (λ l. leb (rank level) (rank l)) (level_after-eq current requests)
