-- ===== src/HexStr.antt =====
-- The texts of bytes in hexadecimal of src/common/Utilities/Util.cpp. A character is its code;
-- arrays are far shorter than the 2 ^ 31 that the source counts to.
pub mod RoundTrip
use mathlib.Core.List.{reverse}
use warhead_discord.Prelude.{
  ℕ, ◌∷◌, ◌+◌, ◌-◌, ◌*◌, ◌/◌, ◌%◌, ◌^◌, Bool, true, false, ◌&&◌, Option, none, some, List, [], ◌++◌,
  leb, ltb, ◌==◌, if◌then◌else◌, length, Result, err, ok, require, ◌>>=◌, ◌>>◌, aborted, fault,
}

-- The digits of `%X`.
unfoldable pub hex_digit : ℕ → ℕ
hex_digit n = if ltb n 10 then 48 + n else 55 + n

-- `%02X` of a byte.
unfoldable pub byte_to_hex : ℕ → List ℕ
unfolding hex_digit
byte_to_hex b = hex_digit (b / 16) ∷ hex_digit (b % 16) ∷ []

unfoldable pub append_all : List ℕ → List ℕ
unfolding byte_to_hex
append_all [] = []
append_all (b ∷ bytes) = byte_to_hex b ++ append_all bytes

-- The loop goes over the indices from the first or from the last.
unfoldable pub byte_array_to_hex_str : List ℕ → Bool → List ℕ
unfolding append_all
byte_array_to_hex_str bytes backwards = append_all (if backwards then reverse bytes else bytes)

-- `strtoul` with base 16: spaces, a sign, and digits up to the first other character.
unfoldable pub hex_value : ℕ → Option ℕ
hex_value c =
    if leb 48 c && leb c 57
    then some (c - 48)
    else if leb 65 c && leb c 70
    then some (c - 55)
    else if leb 97 c && leb c 102
    then some (c - 87)
    else none

unfoldable pub parse_digits : ℕ → List ℕ → ℕ
unfolding hex_value
parse_digits acc [] = acc
parse_digits acc (c ∷ text) = elim (hex_value c) [
  | none ↦ acc
  | some digit ↦ parse_digits (16 * acc + digit) text
]

unfoldable pub is_space : ℕ → Bool
is_space c = if c == 32 then true else leb 9 c && leb c 13

unfoldable pub parse_signed : List ℕ → ℕ
unfolding parse_digits
parse_signed [] = 0
parse_signed (c ∷ text) =
    if c == 45
    then (2 ^ 64 - parse_digits 0 text) % 2 ^ 64
    else if c == 43
    then parse_digits 0 text
    else parse_digits 0 (c ∷ text)

unfoldable pub strtoul : List ℕ → ℕ
unfolding is_space parse_signed
strtoul [] = 0
strtoul (c ∷ text) = let rest = strtoul text in if is_space c then rest else parse_signed (c ∷ text)

-- The bytes of the pairs of characters; an odd character would be read over the end.
unfoldable pub read_pairs : List ℕ → Result (List ℕ)
unfolding strtoul
read_pairs [] = ok []
read_pairs (a ∷ []) = err fault
read_pairs (a ∷ b ∷ text) = do bytes ← read_pairs text; ok (strtoul (a ∷ b ∷ []) % 2 ^ 8 ∷ bytes)

unfoldable pub hex_str_to_byte_array : List ℕ → ℕ → Bool → Result (List ℕ)
unfolding read_pairs
hex_str_to_byte_array str outlen backwards = do
  checked ← require (length str == 2 * outlen) aborted
  bytes ← read_pairs str
  ok (if backwards then reverse bytes else bytes)
