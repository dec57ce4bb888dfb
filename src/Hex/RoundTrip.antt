-- ===== src/Hex/RoundTrip.antt =====
-- Hex texts: what `hex` writes, `fromhex` reads back.
use pitcrypt_f.Prelude.{
  All, [], ap, arith, false, length, refl, some, sym, true, ℕ, ◌%◌, ◌/◌, ◌<◌, ◌∙◌, ◌∷◌, ◌≡◌,
}
use pitcrypt_f.Hex.{cons_byte, from_hex, hex_byte, hex_char, hex_digit, is_space, to_hex}
use pitcrypt_f.Packet.{Bytes, is_truthy, str}

abbrev pub IsBytes : Bytes → Type 0
IsBytes = All (λ b. b < 256)

hex_digit-hex_char : (d : ℕ) → d < 16 → hex_digit (hex_char d) ≡ some d
unfolding hex_digit hex_char
hex_digit-hex_char d h = ground arith

is_space-hex_char : (d : ℕ) → d < 16 → is_space (hex_char d) ≡ false
unfolding is_space hex_char
is_space-hex_char d h = ground arith

hex_byte-hex_char : (b : ℕ) → b < 256 → hex_byte (hex_char (b / 16)) (hex_char (b % 16)) ≡ some b
unfolding hex_byte
hex_byte-hex_char b h =
    rw (hex_digit-hex_char (b / 16) (omega arith), hex_byte)
      (rw (hex_digit-hex_char (b % 16) (omega arith)) (ap some (omega arith)))

pub from_hex-to_hex : (bs : Bytes) → IsBytes bs → from_hex (to_hex bs) ≡ some bs
unfolding from_hex to_hex cons_byte
from_hex-to_hex [] h = refl
from_hex-to_hex (b ∷ bs) h =
    rw (is_space-hex_char (b / 16) (omega arith), from_hex)
      (rw (hex_byte-hex_char b h.0, from_hex-to_hex bs h.1))

-- Different byte strings have different hex texts.
pub to_hex_injective : (xs ys : Bytes) → IsBytes xs → IsBytes ys → to_hex xs ≡ to_hex ys → xs ≡ ys
to_hex_injective xs ys hx hy e =
    let e' : some xs ≡ some ys =
      sym (from_hex-to_hex xs hx) ∙ ap from_hex e ∙ from_hex-to_hex ys hy in
    cc

-- The hex text of some bytes is not empty.
pub is_truthy-to_hex : (bs : Bytes) → 0 < length bs → is_truthy (some (str (to_hex bs))) ≡ true
unfolding to_hex
is_truthy-to_hex [] h = absurd (omega arith)
is_truthy-to_hex (b ∷ bs) h = refl
