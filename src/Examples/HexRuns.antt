-- ===== src/Examples/HexRuns.antt =====
-- A key file with white space and capital letters.
use access_security_system_e.Common.{
  ℕ, ◌≡◌, ◌↔◌, ◌<◌, zero, suc, some, List, [], ◌∷◌, ◌++◌, map, length, replicate, arith, All,
}
use access_security_system_e.Protocol.Codec.Inverse.{IsByte}
use access_security_system_e.CardId.{to_hex}
use access_security_system_e.Hex.{without_spaces, parse_hex}
use access_security_system_e.Hex.Strict.{lower, parse_hex_iff}

abbrev zeros_and_key : List ℕ
zeros_and_key = replicate 62 48 ++ (32 ∷ (65 ∷ (98 ∷ (10 ∷ []))))

abbrev key : List ℕ
key = replicate 31 0 ++ (171 ∷ [])

All-replicate :
    (n b : ℕ) → b < 256 → (rest : List ℕ) → All IsByte rest → All IsByte (replicate n b ++ rest)
All-replicate zero b h rest r = r
All-replicate (suc n) b h rest r = (h, All-replicate n b h rest r)

parse_hex_iff_example :
    (parse_hex zeros_and_key ≡ some key)
    ↔ ((length key ≡ 32) × All IsByte key × (map lower (without_spaces zeros_and_key) ≡ to_hex key))
parse_hex_iff_example = parse_hex_iff zeros_and_key key (
    All-replicate 62 48 (omega arith) (32 ∷ (65 ∷ (98 ∷ (10 ∷ []))))
      (omega arith, (omega arith, (omega arith, (omega arith, tt)))))
