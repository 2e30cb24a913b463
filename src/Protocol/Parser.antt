-- ===== src/Protocol/Parser.antt =====
-- protocol_lib/src/frame_parser.cpp. The parser's pointer is the list of the bytes that are left;
-- each method takes it and returns what it read with the new pointer. `out_of_bounds` is a read
-- past the end of the buffer, which the source does not check at the read itself.
pub mod Steps
pub mod RoundTrip
pub mod Safety
use access_security_system_e.Common.{
  ℕ, ◌+◌, ◌*◌, Bool, true, false, not, Option, none, some, List, [], ◌∷◌, length, take, drop, leb,
  ltb, ◌==◌, if◌then◌else◌, bytes_eq,
}
use access_security_system_e.Protocol.Codec.{get_le32, get_le64}
use access_security_system_e.Protocol.Frame.{Header, Frame, magic, version}

-- The std::runtime_error that each check throws.
pub data ParseError : Type 0 where
  too_small bad_magic bad_version ct_len_exceeds_limit length_mismatch trailing_bytes : ParseError
  out_of_bounds : ParseError

pub data Result {ℓ} (A : Type ℓ) : Type ℓ where
  ok : A → Result A
  err : ParseError → Result A

infixl 5 ◌>>=◌ ◌>>◌
-- The rest of a method runs where no check has thrown.
abbrev pub ◌>>=◌ {ℓ κ} : {X : Type ℓ} {Y : Type κ} → Result X → (X → Result Y) → Result Y
err e >>= rest = err e
ok x >>= rest = rest x

abbrev pub ◌>>◌ {ℓ} : {Y : Type ℓ} → Result (Unit {0}) → Result Y → Result Y
check >> rest = check >>= λ _. rest

abbrev pub throw_unless : Bool → ParseError → Result (Unit {0})
throw_unless true e = ok tt
throw_unless false e = err e

abbrev pub in_bounds {ℓ} : {A : Type ℓ} → Option A → Result A
in_bounds none = err out_of_bounds
in_bounds (some a) = ok a

-- ComputedValues
abbrev pub version_size : ℕ
version_size = 1

abbrev pub magic_size : ℕ
magic_size = 4

abbrev pub header_fixed_size : ℕ
header_fixed_size = 3 * 4 + 2 * 8

abbrev pub nonce_size : ℕ
nonce_size = 24

abbrev pub tag_size : ℕ
tag_size = 16

abbrev pub ct_len_size : ℕ
ct_len_size = 4

abbrev pub min_frame_size : ℕ
min_frame_size = magic_size + version_size + header_fixed_size + nonce_size + ct_len_size + tag_size

abbrev pub Ptr : Type 0
Ptr = List ℕ

-- memcpy of n bytes from the pointer, which then moves on.
unfoldable pub copy_bytes : ℕ → Ptr → Result (List ℕ × Ptr)
copy_bytes n p = if leb n (length p) then ok (take n p, drop n p) else err out_of_bounds

-- *_ptr++
unfoldable pub read_byte : Ptr → Result (ℕ × Ptr)
read_byte [] = err out_of_bounds
read_byte (b ∷ p) = ok (b, p)

unfoldable pub read_le32 : Ptr → Result (ℕ × Ptr)
read_le32 p = do v ← in_bounds (get_le32 p); ok (v, drop 4 p)

unfoldable pub read_le64 : Ptr → Result (ℕ × Ptr)
read_le64 p = do v ← in_bounds (get_le64 p); ok (v, drop 8 p)

unfoldable pub require_bytes : ℕ → ParseError → Ptr → Result (Unit {0})
require_bytes n msg p = throw_unless (not (ltb (length p) n)) msg

unfoldable pub validate_min_size : List ℕ → Result (Unit {0})
validate_min_size bytes = throw_unless (not (ltb (length bytes) min_frame_size)) too_small

unfoldable pub validate_magic : Ptr → Result Ptr
validate_magic p = do
  require_bytes magic_size too_small p
  (head, rest) ← copy_bytes magic_size p
  throw_unless (bytes_eq head magic) bad_magic
  ok rest

unfoldable pub validate_version : Ptr → Result Ptr
validate_version p = do
  require_bytes version_size too_small p
  (ver, rest) ← read_byte p
  throw_unless (ver == version) bad_version
  ok rest

unfoldable pub parse_header : Ptr → Result (Header × Ptr)
parse_header p = do
  require_bytes (header_fixed_size + nonce_size + ct_len_size) too_small p
  (reader_id, p1) ← read_le32 p
  (door_id, p2) ← read_le32 p1
  (ts_unix_ms, p3) ← read_le64 p2
  (seq, p4) ← read_le64 p3
  (key_version, p5) ← read_le32 p4
  (nonce, p6) ← copy_bytes nonce_size p5
  ok (
    record {
      reader_id = reader_id;
      door_id = door_id;
      ts_unix_ms = ts_unix_ms;
      seq = seq;
      key_version = key_version;
      nonce = nonce;
    },
    p6,
  )

unfoldable pub parse_ciphertext : ℕ → Ptr → Result (List ℕ × Ptr)
parse_ciphertext max_ct_len p = do
  (ct_len, p1) ← read_le32 p
  throw_unless (not (ltb max_ct_len ct_len)) ct_len_exceeds_limit
  require_bytes (ct_len + tag_size) length_mismatch p1
  copy_bytes ct_len p1

unfoldable pub parse_tag : Ptr → Result (List ℕ × Ptr)
parse_tag p = copy_bytes tag_size p

unfoldable pub validate_no_trailing_bytes : Ptr → Result (Unit {0})
validate_no_trailing_bytes [] = ok tt
validate_no_trailing_bytes (b ∷ p) = err trailing_bytes

-- FrameParser::parse, and parseFrame of frame.cpp.
unfoldable pub parse_frame : List ℕ → ℕ → Result Frame
parse_frame bytes max_ct_len = do
  validate_min_size bytes
  p ← validate_magic bytes
  p1 ← validate_version p
  (header, p2) ← parse_header p1
  (ct, p3) ← parse_ciphertext max_ct_len p2
  (tag, p4) ← parse_tag p3
  validate_no_trailing_bytes p4
  ok (record { header = header; ct = ct; tag = tag })
