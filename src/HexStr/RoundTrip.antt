-- ===== src/HexStr/RoundTrip.antt =====
-- Bytes in hexadecimal, read back: src/common/Utilities/Util.cpp.
use mathlib.Core.List.{reverse, reverse_aux, reverse-reverse}
use warhead_discord.Prelude.{
  ℕ, ◌∷◌, ◌+◌, ◌*◌, ◌/◌, ◌%◌, ◌^◌, ◌<◌, ◌≡◌, refl, ap, ◌∙◌, Bool, true, false, not, some, List, [],
  ◌==◌, if◌then◌else◌, length, ok, arith,
}
use warhead_discord.HexStr.{
  hex_digit, byte_to_hex, append_all, byte_array_to_hex_str, hex_value, parse_digits, is_space,
  parse_signed, strtoul, read_pairs, hex_str_to_byte_array,
}

abbrev pub same_way : Bool → Bool → Bool
same_way true read = read
same_way false read = not read

-- Numbers of 8 bits.
abbrev pub AreBytes : List ℕ → Type 0
AreBytes [] = Unit {0}
AreBytes (b ∷ bytes) = (b < 256) × AreBytes bytes

hex_value-hex_digit : (n : ℕ) → n < 16 → hex_value (hex_digit n) ≡ some n
unfolding hex_value hex_digit
hex_value-hex_digit n small = ground arith

hex_digit-plain :
    (n : ℕ)
    → n < 16
    → (is_space (hex_digit n) ≡ false)
      × ((hex_digit n == 45) ≡ false)
      × ((hex_digit n == 43) ≡ false)
unfolding hex_digit is_space
hex_digit-plain n small = (ground arith, ground arith, ground arith)

strtoul-byte_to_hex : (b : ℕ) → b < 256 → strtoul (byte_to_hex b) ≡ b
unfolding strtoul byte_to_hex parse_signed parse_digits
strtoul-byte_to_hex b small =
    let (solid, no_minus, no_plus) = hex_digit-plain (b / 16) (omega arith) in
    rw
      (
        strtoul,
        solid,
        parse_signed,
        no_minus,
        no_plus,
        parse_digits,
        hex_value-hex_digit (b / 16) (omega arith),
        hex_value-hex_digit (b % 16) (omega arith),
      )
      (omega arith)

read_pairs-append_all : (bytes : List ℕ) → AreBytes bytes → read_pairs (append_all bytes) ≡ ok bytes
unfolding read_pairs append_all
read_pairs-append_all [] h = refl
read_pairs-append_all (b ∷ bytes) (small, h) =
    let e : strtoul (byte_to_hex b) % 2 ^ 8 ≡ b = omega (arith, strtoul-byte_to_hex b small) in
    rw (read_pairs-append_all bytes h) (ap (λ c. ok (c ∷ bytes)) e)

length-append_all : (bytes : List ℕ) → length (append_all bytes) ≡ 2 * length bytes
unfolding append_all byte_to_hex
length-append_all [] = refl
length-append_all (b ∷ bytes) = omega (arith, length-append_all bytes)

reverse_aux-AreBytes :
    (bytes done : List ℕ) → AreBytes bytes → AreBytes done → AreBytes (reverse_aux bytes done)
reverse_aux-AreBytes [] done h k = k
reverse_aux-AreBytes (b ∷ bytes) done (small, h) k =
    reverse_aux-AreBytes bytes (b ∷ done) h (small, k)

length-reverse_aux :
    (bytes done : List ℕ) → length (reverse_aux bytes done) ≡ length bytes + length done
length-reverse_aux [] done = omega arith
length-reverse_aux (b ∷ bytes) done = omega (arith, length-reverse_aux bytes (b ∷ done))

-- The text of any bytes is as long as it should be, and is read back.
read_back :
    (bytes : List ℕ) (outlen : ℕ) (backwards : Bool)
    → AreBytes bytes
    → length bytes ≡ outlen
    → hex_str_to_byte_array (append_all bytes) outlen backwards
      ≡ ok (if backwards then reverse bytes else bytes)
unfolding hex_str_to_byte_array
read_back bytes outlen backwards h size =
    let right : (length (append_all bytes) == 2 * outlen) ≡ true =
      ground (arith, length-append_all bytes, size) in
    rw (hex_str_to_byte_array, right, read_pairs-append_all bytes h) refl

-- Bytes that are written in hexadecimal, from the first or from the last, are read back in the
-- same direction as they were, and in the other direction turned round.
pub hex_str_to_byte_array-byte_array_to_hex_str :
    (bytes : List ℕ) (written read : Bool)
    → AreBytes bytes
    → hex_str_to_byte_array (byte_array_to_hex_str bytes written) (length bytes) read
      ≡ ok (if same_way written read then bytes else reverse bytes)
unfolding byte_array_to_hex_str
hex_str_to_byte_array-byte_array_to_hex_str bytes false false h =
    read_back bytes (length bytes) false h refl
hex_str_to_byte_array-byte_array_to_hex_str bytes false true h =
    read_back bytes (length bytes) true h refl
hex_str_to_byte_array-byte_array_to_hex_str bytes true false h =
    read_back (reverse bytes) (length bytes) false (reverse_aux-AreBytes bytes [] h tt)
      (omega (arith, length-reverse_aux bytes []))
hex_str_to_byte_array-byte_array_to_hex_str bytes true true h =
    read_back (reverse bytes) (length bytes) true (reverse_aux-AreBytes bytes [] h tt)
      (omega (arith, length-reverse_aux bytes []))
    ∙ ap ok (reverse-reverse bytes)
