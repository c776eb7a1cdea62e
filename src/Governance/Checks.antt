-- ===== src/Governance/Checks.antt =====
-- src/actions/default_ccf.js: `checkType`, for the types that the actions ask for. None of them is
-- optional.
use Prim.Native.Nat.{◌^◌}
use depa_kms_gcp_oidc.Prelude.{◌/◌, ◌%◌, String, ◌==◌, eqb, if◌then◌else◌, Option, none, some}
use depa_kms_gcp_oidc.Prelude.Int.{ℤ, pos, ◌-ℤ◌}
use depa_kms_gcp_oidc.Js.{Value, undefined, null, bool, num, str, arr, obj, dec}
use depa_kms_gcp_oidc.ServiceResult.{wrong_type, Throws, returned, thrown, or_throw}

-- `typeof v`
pub type_of : Value → String
type_of undefined = "undefined"
type_of null = "object"
type_of (bool _) = "boolean"
type_of (num _) = "number"
type_of (str _) = "string"
type_of (arr _) = "object"
type_of (obj _) = "object"

-- `checkType(v, type, field)` for a `typeof` type
unfoldable pub check_type : Value → (type field : String) → Throws (Unit {0})
unfolding type_of
check_type v type field = if type_of v == type then returned tt else thrown (wrong_type field)

-- `Number.isInteger(v)`, with the integer
pub as_integer : Value → Option ℤ
as_integer (num (dec negative m k)) =
    if eqb (m % 10 ^ k) 0
    then some (if negative then pos 0 -ℤ pos (m / 10 ^ k) else pos (m / 10 ^ k))
    else none
as_integer _ = none

-- `checkType(v, "integer", field)`, with the integer that has passed
unfoldable pub checked_integer : Value → (field : String) → Throws ℤ
unfolding as_integer
checked_integer v field = or_throw (wrong_type field) (as_integer v)
