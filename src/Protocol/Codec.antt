-- ===== src/Protocol/Codec.antt =====
-- protocol_lib/src/protocol_utils.cpp: little-endian integers in byte buffers.
-- A byte buffer is a list of numbers below 256; a read past its end is `none`.
pub mod Inverse
use Prim.Native.Nat.{bit_or}
use access_security_system_e.Common.{
  ℕ, zero, suc, ◌+◌, ◌-◌, ◌*◌, ◌/◌, ◌%◌, ◌^◌, ◌≤◌, ◌<◌, ◌≡◌, refl, Option, none, some, List, [],
  ◌∷◌, ◌++◌, arith, length, drop, All,
}

abbrev pub u32_mod : ℕ
u32_mod = 2 ^ 32

abbrev pub u64_mod : ℕ
u64_mod = 2 ^ 64

-- static_cast<uint8_t>((v >> k) & 0xff)
abbrev pub byte_at : ℕ → ℕ → ℕ
byte_at v k = v / 2 ^ k % 256

pub le32 : ℕ → List ℕ
le32 v = byte_at v 0 ∷ byte_at v 8 ∷ byte_at v 16 ∷ byte_at v 24 ∷ []

unfoldable pub put_le32 : ℕ → List ℕ → List ℕ
unfolding le32
put_le32 v out = out ++ le32 v

-- The body of the loop of put_le64, for `n` rounds from round `i`.
put_le64_loop : ℕ → ℕ → ℕ → List ℕ
put_le64_loop zero i v = []
put_le64_loop (suc n) i v = byte_at v (8 * i) ∷ put_le64_loop n (i + 1) v

pub le64 : ℕ → List ℕ
unfolding put_le64_loop
le64 v = put_le64_loop 8 0 v

unfoldable pub put_le64 : ℕ → List ℕ → List ℕ
unfolding le64
put_le64 v out = out ++ le64 v

-- p[0] | p[1] << 8 | p[2] << 16 | p[3] << 24: no shift of a byte leaves 32 bits.
unfoldable pub get_le32 : List ℕ → Option ℕ
get_le32 (a ∷ b ∷ c ∷ d ∷ p) =
    some (bit_or (bit_or (bit_or a (b * 2 ^ 8)) (c * 2 ^ 16)) (d * 2 ^ 24))
get_le32 _ = none

get_le64_loop : ℕ → ℕ → ℕ → List ℕ → Option ℕ
get_le64_loop zero i v p = some v
get_le64_loop (suc n) i v [] = none
get_le64_loop (suc n) i v (b ∷ p) = get_le64_loop n (i + 1) (bit_or v (b * 2 ^ (8 * i))) p

unfoldable pub get_le64 : List ℕ → Option ℕ
unfolding get_le64_loop
get_le64 p = get_le64_loop 8 0 0 p

put_le32_runs : put_le32 0x1234_5678 (1 ∷ []) ≡ 1 ∷ 0x78 ∷ 0x56 ∷ 0x34 ∷ 0x12 ∷ []
unfolding put_le32
put_le32_runs = refl

get_le64_runs : get_le64 (1 ∷ 2 ∷ 0 ∷ 0 ∷ 0 ∷ 0 ∷ 0 ∷ 128 ∷ 9 ∷ []) ≡ some (2 ^ 63 + 513)
unfolding get_le64
get_le64_runs = refl
