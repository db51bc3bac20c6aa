-- ===== src/Examples/Texts.antt =====
-- Runs of src/common/Utilities/Tokenize.cpp, with three commas, two of them in a row, and of
-- src/common/Utilities/Util.cpp.
use warhead_discord.Prelude.{ℕ, ◌≡◌, refl, true, false, List, [], ◌∷◌, ok, arith}
use warhead_discord.HexStr.{byte_array_to_hex_str, hex_str_to_byte_array}
use warhead_discord.HexStr.RoundTrip.{hex_str_to_byte_array-byte_array_to_hex_str}
use warhead_discord.Tokenize.{tokenize}
use warhead_discord.Tokenize.Pieces.{pieces, kept, join, tokenize-pieces}

abbrev some_commas : List ℕ
some_commas = 65 ∷ 44 ∷ 44 ∷ 66 ∷ 44 ∷ []

tokenize-some_commas : tokenize some_commas 44 false ≡ (65 ∷ []) ∷ (66 ∷ []) ∷ []
unfolding tokenize
tokenize-some_commas = refl

tokenize-pieces_example :
    (tokenize some_commas 44 false ≡ kept false (pieces 44 some_commas))
    × (join 44 (pieces 44 some_commas) ≡ some_commas)
tokenize-pieces_example = tokenize-pieces some_commas 44 false

hex_str_to_byte_array-byte_array_to_hex_str_example :
    hex_str_to_byte_array (byte_array_to_hex_str (1 ∷ 171 ∷ 255 ∷ []) true) 3 false
    ≡ ok (255 ∷ 171 ∷ 1 ∷ [])
hex_str_to_byte_array-byte_array_to_hex_str_example =
    hex_str_to_byte_array-byte_array_to_hex_str (1 ∷ 171 ∷ 255 ∷ []) true false
      (omega arith, (omega arith, (omega arith, tt)))
