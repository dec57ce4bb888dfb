-- ===== src/Hex.antt =====
-- Python's `bytes.hex` and `bytes.fromhex`, which the relay and the validator use on nonces,
-- commitments and signatures (validator-node/src/zkp_verifier.py, signature_verifier.py).
pub mod RoundTrip
use mathlib.Core.Option
use pitcrypt_f.Prelude.{
  Bool, Option, [], false, if◌then◌else◌, leb, ltb, nat_eq, none, some, true, ℕ, ◌%◌, ◌&&◌, ◌*◌,
  ◌+◌, ◌-◌, ◌/◌, ◌==◌, ◌||◌, ◌∷◌,
}
use pitcrypt_f.Packet.{Bytes, Text}

hex_char : ℕ → ℕ
hex_char d = if ltb d 10 then d + 48 else d + 87

-- `bs.hex()`: two lower-case digits a byte.
pub to_hex : Bytes → Text
to_hex [] = []
to_hex (b ∷ bs) = hex_char (b / 16) ∷ hex_char (b % 16) ∷ to_hex bs

hex_digit : ℕ → Option ℕ
hex_digit c =
    if leb 48 c && leb c 57
    then some (c - 48)
    else if leb 97 c && leb c 102
    then some (c - 87)
    else if leb 65 c && leb c 70
    then some (c - 55)
    else none

hex_byte : ℕ → ℕ → Option ℕ
hex_byte a b = elim (hex_digit a) [
  | none ↦ none
  | some x ↦ Option.map (λ y. x * 16 + y) (hex_digit b)
]

is_space : ℕ → Bool
is_space c = c == 32 || leb 9 c && leb c 13

cons_byte : Option ℕ → Option Bytes → Option Bytes
cons_byte none rest = none
cons_byte (some b) rest = Option.map (◌∷◌ b) rest

-- `bytes.fromhex(s)`: white space may stand before a byte; `none` is the ValueError.
pub from_hex : Text → Option Bytes
from_hex [] = some []
from_hex (a ∷ []) = if is_space a then some [] else none
from_hex (a ∷ b ∷ cs) = elim (is_space a) [
  | true ↦ from_hex (b ∷ cs)
  | false ↦ cons_byte (hex_byte a b) (from_hex cs)
]
