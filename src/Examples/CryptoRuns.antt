-- ===== src/Examples/CryptoRuns.antt =====
-- Key derivation and the cipher at small inputs.
use access_security_system_e.Common.{
  ℕ, ◌≡◌, arith, none, some, List, [], ◌∷◌, ltb, if◌then◌else◌, take, length,
}
use access_security_system_e.Crypto.Hkdf.{
  derive, extract, compute_block_count, blocks, derive-blocks, length-derive,
}
use access_security_system_e.Examples.World.{toy, toy_hmac}

derive-blocks_example : derive toy (1 ∷ []) (2 ∷ []) (3 ∷ []) 40 ≡ (
    if ltb 255 (compute_block_count toy 40)
    then none
    else some (
        take 40 (blocks toy (extract toy (1 ∷ []) (2 ∷ [])) (3 ∷ []) (compute_block_count toy 40))))
derive-blocks_example = derive-blocks toy toy_hmac (1 ∷ []) (2 ∷ []) (3 ∷ []) 40

length-derive_example :
    (okm : List ℕ) × (derive toy (1 ∷ []) [] (3 ∷ []) 40 ≡ some okm) × (length okm ≡ 40)
length-derive_example = length-derive toy toy_hmac (1 ∷ []) [] (3 ∷ []) 40 (omega arith)

abbrev byte_171 : List ℕ
byte_171 = 171 ∷ []
