-- ===== src/Tooling/Hex.antt =====
-- Reading the hexadecimal texts that `arrayBufferToHex` writes.
use depa_kms_gcp_oidc.Js.Text.{codes-concat}
use depa_kms_gcp_oidc.Prelude.{
  ℕ, zero, suc, ◌+◌, ◌-◌, ◌*◌, ◌<◌, ◌≡◌, refl, ap, ◌∙◌, Bool, true, false, ◌&&◌, Option, none, some,
  List, [], ◌∷◌, ◌++◌, arith, ltb, eqb, if◌then◌else◌, All,
}
use depa_kms_gcp_oidc.Js.{codes}
use depa_kms_gcp_oidc.Tooling.{Bytes, hex_byte, array_buffer_to_hex}

-- The number of a hexadecimal digit.
digit_value : ℕ → ℕ
digit_value c = if ltb c b'a' then c - b'0' else c - b'a' + 10

-- The inverse: two digits to a byte.
unfoldable pub from_hex : List ℕ → Bytes
unfolding digit_value
from_hex (c ∷ (d ∷ cs)) = (16 * digit_value c + digit_value d) ∷ from_hex cs
from_hex _ = []

read_two : List ℕ → Option ℕ
unfolding digit_value
read_two (c ∷ (d ∷ [])) = some (16 * digit_value c + digit_value d)
read_two _ = none

is_some_of : Option ℕ → ℕ → Bool
is_some_of none b = false
is_some_of (some a) b = eqb a b

-- Whether each byte below `bound` is read back from its two digits.
is_read_below : (bound : ℕ) → Bool
unfolding is_some_of read_two hex_byte
is_read_below zero = true
is_read_below (suc byte) = is_read_below byte && is_some_of (read_two (codes (hex_byte byte))) byte

every_byte : is_read_below 256 ≡ true
unfolding is_read_below
every_byte = refl

is_read_at :
    (bound byte : ℕ)
    → byte < bound
    → is_read_below bound ≡ true
    → is_some_of (read_two (codes (hex_byte byte))) byte ≡ true
unfolding is_read_below
is_read_at zero byte below read = absurd (omega arith)
is_read_at (suc last) byte below read = let earlier = is_read_at last byte in ground arith

is_some_of_sound : (o : Option ℕ) (b : ℕ) → is_some_of o b ≡ true → o ≡ some b
unfolding is_some_of
is_some_of_sound none b h = cc
is_some_of_sound (some a) b h = ground arith

read_hex_byte : (b : ℕ) → b < 256 → read_two (codes (hex_byte b)) ≡ some b
read_hex_byte b h = is_some_of_sound _ b (is_read_at 256 b h every_byte)

from_hex-two :
    (cs rest : List ℕ) (b : ℕ) → read_two cs ≡ some b → from_hex (cs ++ rest) ≡ b ∷ from_hex rest
unfolding from_hex read_two
from_hex-two (c ∷ (d ∷ [])) rest b h = ground arith
from_hex-two [] rest b h = cc
from_hex-two (c ∷ []) rest b h = cc
from_hex-two (c ∷ (d ∷ (e ∷ cs))) rest b h = cc

-- Reading the hexadecimal text of a buffer gives the buffer back.
pub from_hex-array_buffer_to_hex :
    (bytes : Bytes)
    → All (λ b. b < 256) bytes
    → from_hex (codes (array_buffer_to_hex bytes)) ≡ bytes
unfolding array_buffer_to_hex from_hex
from_hex-array_buffer_to_hex [] h = refl
from_hex-array_buffer_to_hex (b ∷ bytes) (small, h) =
    ap from_hex (codes-concat (hex_byte b) (array_buffer_to_hex bytes))
    ∙ from_hex-two (codes (hex_byte b)) _ b (read_hex_byte b small)
    ∙ ap (λ r. b ∷ r) (from_hex-array_buffer_to_hex bytes h)
