-- ===== src/Tooling/Query.antt =====
-- What the query parameters of a request are.
use depa_kms_gcp_oidc.Prelude.{
  ◌≡◌, refl, ◌∙◌, String, Option, none, some, List, [], ◌∷◌, arith, ◌==◌, lookup, insert,
  lookup-insert, if◌then◌else◌,
}
use depa_kms_gcp_oidc.Js.{split}
use depa_kms_gcp_oidc.Tooling.{param_of, assign_all, query_params}

-- The value of the last of the elements with the name `k`, read from the end of the list.
pub last_param : String → List String → Option (Option String)
unfolding param_of
last_param k [] = none
last_param k (element ∷ elements) = elim (last_param k elements) [
  | some value ↦ some value
  | none ↦
      let (name, value) = param_of (split b'=' element) in if name == k then some value else none
]

abbrev or_else : Option (Option String) → Option (Option String) → Option (Option String)
or_else (some v) other = some v
or_else none other = other

or_else-none : (o : Option (Option String)) (k : String) → or_else o (lookup k []) ≡ o
unfolding lookup
or_else-none none k = refl
or_else-none (some v) k = refl

lookup-assign_all :
    (k : String) (params : List (String × Option String)) (elements : List String)
    → lookup k (assign_all params elements) ≡ or_else (last_param k elements) (lookup k params)
unfolding assign_all last_param
lookup-assign_all k params [] = refl
lookup-assign_all k params (element ∷ elements) =
    let (name, value) = param_of (split b'=' element) in
    ground (
      arith,
      lookup-assign_all k (insert name value params) elements,
      lookup-insert name k value params,
    )

-- A parameter's value is that of the last "&"-separated element with its name; the parameter is
-- missing exactly where there is no such element.
pub lookup-query_params :
    (k query : String) → lookup k (query_params query) ≡ last_param k (split b'&' query)
unfolding query_params
lookup-query_params k query =
    lookup-assign_all k [] (split b'&' query) ∙ or_else-none (last_param k (split b'&' query)) k
