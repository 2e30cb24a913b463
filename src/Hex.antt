-- ===== src/Hex.antt =====
-- Hexadecimal texts: key_manager/src/hex_utils.cpp, hexToBytes and bytesToHex of
-- access_admin/src/http_utils.cpp, and the decoder of access_admin/src/service/hw_service.cpp that
-- refuses no character. Texts are bytes; std::isspace is that of the "C" locale.
pub mod Strict
pub mod Loose
use Prim.Native.Nat.{bit_or}
use access_security_system_e.Common.{
  ℕ, ◌+◌, ◌-◌, ◌*◌, ◌/◌, ◌%◌, Bool, ◌&&◌, ◌||◌, Option, none, some, List, [], ◌∷◌, length, leb,
  ◌==◌, if◌then◌else◌,
}
use access_security_system_e.Common.Rows.{remove_rows}
use access_security_system_e.CardId.{hex_char}

-- hexNibble; `none` is its exception.
unfoldable pub hex_nibble : ℕ → Option ℕ
hex_nibble c =
    if leb 48 c && leb c 57
    then some (c - 48)
    else if leb 97 c && leb c 102
    then some (10 + (c - 97))
    else if leb 65 c && leb c 70
    then some (10 + (c - 65))
    else none

-- hexNibble of hw_service.cpp
unfoldable pub loose_nibble : ℕ → ℕ
loose_nibble c =
    if leb 48 c && leb c 57
    then c - 48
    else if leb 97 c && leb c 102
    then 10 + (c - 97)
    else if leb 65 c && leb c 70
    then 10 + (c - 65)
    else 0

abbrev pub pair_byte : ℕ → ℕ → ℕ
pair_byte hi lo = bit_or (hi * 16) lo % 256

-- The loop over the pairs; a character that is left over is excluded by the check of the length.
unfoldable pub decode_pairs : List ℕ → Option (List ℕ)
unfolding hex_nibble
decode_pairs [] = some []
decode_pairs (h ∷ []) = none
decode_pairs (h ∷ (l ∷ rest)) = elim (hex_nibble h) [
  | none ↦ none
  | some hi ↦ elim (hex_nibble l) [
    | none ↦ none
    | some lo ↦ elim (decode_pairs rest) [ none ↦ none | some out ↦ some (pair_byte hi lo ∷ out) ]
  ]
]

unfoldable pub is_space : ℕ → Bool
is_space c = (c == 32) || (leb 9 c && leb c 13)

unfoldable pub without_spaces : List ℕ → List ℕ
unfolding remove_rows is_space
without_spaces s = remove_rows is_space s

-- parseHex<kMasterKeySize>
unfoldable pub parse_hex : List ℕ → Option (List ℕ)
unfolding without_spaces decode_pairs
parse_hex s = let hex = without_spaces s in if length hex == 64 then decode_pairs hex else none

-- hexToBytes of http_utils.cpp
unfoldable pub hex_to_bytes : List ℕ → Option (List ℕ)
unfolding without_spaces decode_pairs
hex_to_bytes s =
    let hex = without_spaces s in if length hex % 2 == 0 then decode_pairs hex else none

unfoldable pub loose_pairs : List ℕ → List ℕ
unfolding loose_nibble
loose_pairs [] = []
loose_pairs (h ∷ []) = []
loose_pairs (h ∷ (l ∷ rest)) = pair_byte (loose_nibble h) (loose_nibble l) ∷ loose_pairs rest

-- hexToBytesLoose
unfoldable pub hex_to_bytes_loose : List ℕ → List ℕ
unfolding loose_pairs
hex_to_bytes_loose s = if length s % 2 == 0 then loose_pairs s else []

-- bytesToHex
unfoldable pub bytes_to_hex : List ℕ → List ℕ
unfolding hex_char
bytes_to_hex [] = []
bytes_to_hex (b ∷ v) = hex_char (b / 16 % 16) ∷ (hex_char (b % 16) ∷ bytes_to_hex v)
