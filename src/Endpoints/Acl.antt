-- ===== src/Endpoints/Acl.antt =====
-- src/endpoints/proposals.ts: which callers may propose where the service runs on an Azure confidential
-- ledger, whose `acl` gives its users roles.
use depa_kms_gcp_oidc.Prelude.{
  false, Bool, String, Bool, not, ◌||◌, Option, none, some, List, [], ◌∷◌, ◌==◌, lookup,
  if◌then◌else◌,
}
use depa_kms_gcp_oidc.Js.{Value, str, arr, nil, elems, chars, codes, concat, contains, includes}
use depa_kms_gcp_oidc.ServiceResult.{
  type_error, unexpected_auth, caller_id_undefined, no_append_permission, Throws, returned, thrown,
}
use depa_kms_gcp_oidc.Authorization.{Caller, user_cose_sign1}
use depa_kms_gcp_oidc.Endpoints.Handler.{Handler, ◌>>=◌, ◌>>◌, pure, guard, or_fail, or_escape}

-- `isAuthType(identity, "user_cose_sign1")`, with the caller's name
pub cose_user : Option Caller → Throws (Option String)
cose_user none = thrown type_error
cose_user (some (user_cose_sign1 id _)) = returned (some id)
cose_user (some _) = returned none

-- `toUpperCase` of a hexadecimal digit
upper : String → String
upper c =
    if c == "a"
    then "A"
    else if c == "b"
    then "B"
    else if c == "c"
    then "C"
    else if c == "d"
    then "D"
    else if c == "e"
    then "E"
    else if c == "f"
    then "F"
    else c

-- `id.toUpperCase().match(/.{1,2}/g)?.join(":")`; with no match the identity is undefined
pub fingerprint : List String → String
unfolding upper
fingerprint [] = ""
fingerprint (a ∷ []) = upper a
fingerprint (a ∷ (b ∷ [])) = concat (upper a) (upper b)
fingerprint (a ∷ (b ∷ (c ∷ cs))) =
    concat (upper a) (concat (upper b) (concat ":" (fingerprint (c ∷ cs))))

-- The stored roles of a user, which are to be a list, and are empty where nothing is stored. Texts have an
-- `includes`, too.
pub roles_of : Option (Option Value) → Throws Value
roles_of none = returned (arr nil)
roles_of (some (some (arr roles))) = returned (arr roles)
roles_of (some (some (str s))) = returned (str s)
roles_of (some _) = thrown type_error

-- `roles.includes(name)`
has_role : Value → String → Bool
unfolding includes contains
has_role (arr roles) name = includes (elems roles) (str name)
has_role (str s) name = contains (codes name) (codes s)
has_role _ name = false

-- The table of the roles of the Azure confidential ledger, by the quoted name of the user.
abbrev pub Roles : Type 0
Roles = List (String × Option Value)

abbrev pub may_append : Value → Bool
unfolding has_role
may_append roles = has_role roles "Administrator" || has_role roles "Contributor"

-- The name of a user in the table of roles, in quotes.
pub quoted_name : String → String
unfolding fingerprint
quoted_name id = concat "\"" (concat (fingerprint (chars id)) "\"")

-- The checks where `acl` is an object.
unfoldable pub check_acl : Roles → Option Caller → Handler (Unit {0})
unfolding cose_user fingerprint quoted_name roles_of has_role lookup
check_acl table caller = do
  user ← or_escape (cose_user caller)
  id ← or_fail user unexpected_auth 500
  guard (not (fingerprint (chars id) == "")) caller_id_undefined 500
  roles ← or_escape (roles_of (lookup (quoted_name id) table))
  guard (may_append roles) no_append_permission 401

-- `if (typeof acl === "object")`
unfoldable pub acl_checks : (acl : Option Roles) → Option Caller → Handler (Unit {0})
unfolding check_acl
acl_checks none caller = pure tt
acl_checks (some table) caller = check_acl table caller
