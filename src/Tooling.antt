-- ===== src/Tooling.antt =====
-- src/utils/Tooling.ts: hexadecimal texts, query parameters and the test for a PEM public key. A
-- buffer of a text is the list of its code points, a buffer of bytes a list of numbers below 256.
pub mod Hex
pub mod Newlines
pub mod Query
use depa_kms_gcp_oidc.Prelude.{
  ℕ, ◌+◌, ◌/◌, ◌%◌, ◌<◌, String, Bool, ◌&&◌, ◌||◌, Option, none, some, List, [], ◌∷◌, ◌++◌, map,
  ltb, eqb, if◌then◌else◌, insert, length,
}
use depa_kms_gcp_oidc.Js.{concat, digit, codes, contains, ends_with, split}

abbrev pub Bytes : Type 0
Bytes = List ℕ

-- `n.toString(16).padStart(2, "0")` of a byte.
hex_byte : ℕ → String
unfolding digit
hex_byte n = if ltb n 16 then concat "0" (digit n) else concat (digit (n / 16)) (digit (n % 16))

-- `arrayBufferToHex`, which `aToHex` and the `hex` of the attestation claims repeat.
unfoldable pub array_buffer_to_hex : Bytes → String
unfolding hex_byte
array_buffer_to_hex [] = ""
array_buffer_to_hex (n ∷ ns) = concat (hex_byte n) (array_buffer_to_hex ns)

-- `[param[0], param[1]]`: the value is undefined where there is no "=".
param_of : List String → String × Option String
param_of [] = ("", none)
param_of (name ∷ []) = (name, none)
param_of (name ∷ (value ∷ _)) = (name, some value)

assign_all : List (String × Option String) → List String → List (String × Option String)
unfolding param_of split insert
assign_all params [] = params
assign_all params (element ∷ elements) =
    let (name, value) = param_of (split b'=' element) in
    assign_all (insert name value params) elements

-- `queryParams`: an object, in which a later parameter of the same name wins.
unfoldable pub query_params : String → List (String × Option String)
unfolding assign_all
query_params query = assign_all [] (split b'&' query)

begin_line : List ℕ
begin_line = codes "-----BEGIN PUBLIC KEY-----"

end_line : List ℕ
end_line = codes "-----END PUBLIC KEY-----"

-- A backslash and an `n`.
abbrev escaped_newline : List ℕ
escaped_newline = 92 ∷ 110 ∷ []

abbrev newline : List ℕ
newline = 10 ∷ []

has_pem_lines : List ℕ → List ℕ → Bool
unfolding begin_line end_line contains ends_with
has_pem_lines break key =
    contains (begin_line ++ break) key && ends_with (break ++ end_line ++ break) key

unfoldable pub is_pem_public_key : List ℕ → Bool
unfolding has_pem_lines
is_pem_public_key key = has_pem_lines escaped_newline key || has_pem_lines newline key

-- `key.replace(/\\n/g, "\n")`
unfoldable pub unescape_newlines : List ℕ → List ℕ
unescape_newlines [] = []
unescape_newlines (c ∷ []) = c ∷ []
unescape_newlines (c ∷ (d ∷ key)) =
    let replaced = 10 ∷ unescape_newlines key in
    let kept = c ∷ unescape_newlines (d ∷ key) in if eqb c 92 && eqb d 110 then replaced else kept
