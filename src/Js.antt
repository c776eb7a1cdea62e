-- ===== src/Js.antt =====
-- What the program uses of JavaScript: JSON values with property access, truthiness, equality and
-- conversion to text, numbers with `parseFloat`, and the string methods. Inherited properties of
-- objects and the rounding of floating-point numbers are left out.
pub mod Decimal
pub mod Equality
pub mod ParseFloat
pub mod Text
use mathlib.Core.Bool.{beq}
use depa_kms_gcp_oidc.Prelude.{
  ℕ, suc, ◌+◌, String, Bool, true, false, Option, none, some, List, [], ◌∷◌, map, ◌==◌, any, lookup,
}
pub use Decimal.{Number, nan, infinite, dec}
unfoldable pub use Decimal.{
  of_ℕ, is_nan, num_leb, num_ltb, num_eqb, num_is_zero, num_to_string, digit, decimal,
}
unfoldable pub use ParseFloat.{parse_float}
unfoldable pub use Text.{concat, chars, codes, is_prefix, contains, ends_with, split}

mutual
  pub data Value : Type 0 where
    undefined : Value
    null : Value
    bool : Bool → Value
    num : Number → Value
    str : String → Value
    arr : Values → Value
    obj : Fields → Value

  pub data Values : Type 0 where
    nil : Values
    cons : Value → Values → Values

  -- The own properties of an object, in their order; the keys are distinct.
  pub data Fields : Type 0 where
    end : Fields
    field : String → Value → Fields → Fields

abbrev pub elems : Values → List Value
elems nil = []
elems (cons v vs) = v ∷ elems vs

abbrev pub props : Fields → List (String × Value)
props end = []
props (field k v fs) = (k, v) ∷ props fs

abbrev pub or_undefined : Option Value → Value
or_undefined none = undefined
or_undefined (some v) = v

-- `v[k]` for a key that is no index, where `v` is neither null nor undefined.
unfoldable pub member : Value → String → Value
unfolding lookup
member (obj fs) k = or_undefined (lookup k (props fs))
member _ k = undefined

-- `v === null || v === undefined`
unfoldable pub is_nullish : Value → Bool
is_nullish undefined = true
is_nullish null = true
is_nullish _ = false

unfoldable pub is_undefined : Value → Bool
is_undefined undefined = true
is_undefined _ = false

-- `!!v`
unfoldable pub truthy : Value → Bool
unfolding num_is_zero is_nan
truthy undefined = false
truthy null = false
truthy (bool b) = b
truthy (num n) = elim (num_is_zero n) [
  | true ↦ false
  | false ↦ elim (is_nan n) [ true ↦ false | false ↦ true ]
]
truthy (str s) = elim (s == "") [ true ↦ false | false ↦ true ]
truthy (arr _) = true
truthy (obj _) = true

-- `typeof v === "string"`
unfoldable pub is_string : Value → Bool
is_string (str _) = true
is_string _ = false

-- `Array.isArray(v)`, with the elements
unfoldable pub as_array : Value → Option (List Value)
as_array (arr vs) = some (elems vs)
as_array _ = none

-- `a === b` for values of two different JSON texts: no two objects are the same.
unfoldable pub strict_eq : Value → Value → Bool
unfolding num_eqb
strict_eq undefined undefined = true
strict_eq null null = true
strict_eq (bool a) (bool b) = beq a b
strict_eq (num a) (num b) = num_eqb a b
strict_eq (str a) (str b) = a == b
strict_eq _ _ = false

-- `vs.includes(v)`; a JSON text holds no NaN, on which the two equalities differ.
unfoldable pub includes : List Value → Value → Bool
unfolding strict_eq
includes vs v = any (λ w. strict_eq w v) vs

abbrev pub text_or_empty : Option String → String
text_or_empty none = ""
text_or_empty (some s) = s

-- `v.toString()`; `none` is the TypeError of null and undefined.
unfoldable mutual
  unfolding num_to_string

  pub to_string : Value → Option String
  to_string undefined = none
  to_string null = none
  to_string (bool true) = some "true"
  to_string (bool false) = some "false"
  to_string (num n) = some (num_to_string n)
  to_string (str s) = some s
  to_string (arr vs) = some (join_values vs)
  to_string (obj _) = some "[object Object]"

  -- `Array.prototype.join`: null and undefined print as the empty text.
  pub join_values : Values → String
  join_values nil = ""
  join_values (cons v nil) = text_or_empty (to_string v)
  join_values (cons v (cons w vs)) =
      concat (text_or_empty (to_string v)) (concat "," (join_values (cons w vs)))

indexed : ℕ → List Value → List (String × Value)
indexed i [] = []
indexed i (v ∷ vs) = (decimal i, v) ∷ indexed (i + 1) vs

-- `Object.keys(v)`, each key with `v[key]`; `none` is the TypeError of null and undefined.
unfoldable pub entries : Value → Option (List (String × Value))
unfolding indexed decimal
entries undefined = none
entries null = none
entries (obj fs) = some (props fs)
entries (arr vs) = some (indexed 0 (elems vs))
entries (str s) = some (indexed 0 (map str (chars s)))
entries _ = some []
