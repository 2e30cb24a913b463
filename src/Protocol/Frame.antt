-- ===== src/Protocol/Frame.antt =====
-- protocol_lib: packet.hpp, packet.cpp, frame.hpp and frame.cpp (`serialize`).
use access_security_system_e.Common.{
  ℕ, ◌%◌, ◌<◌, ◌≡◌, List, [], ◌∷◌, ◌++◌, arith, length, append_assoc, append-nil, length-append,
}
use access_security_system_e.Protocol.Codec.{u32_mod, u64_mod, le32, le64, put_le32, put_le64}
use access_security_system_e.Protocol.Codec.Inverse.{length-le32, length-le64}

pub record Header : Type 0 where
  pub reader_id : ℕ
  pub door_id : ℕ
  pub ts_unix_ms : ℕ
  pub seq : ℕ
  pub key_version : ℕ
  pub nonce : List ℕ

-- The fields fit their types: uint32_t, uint64_t and std::array<uint8_t, 24>.
pub record IsHeader (h : Header) : Type 0 where
  pub reader_fits : h.reader_id < u32_mod
  pub door_fits : h.door_id < u32_mod
  pub ts_fits : h.ts_unix_ms < u64_mod
  pub seq_fits : h.seq < u64_mod
  pub key_fits : h.key_version < u32_mod
  pub nonce_fits : length h.nonce ≡ 24

pub record Frame : Type 0 where
  pub header : Header
  pub ct : List ℕ
  pub tag : List ℕ

pub record IsFrame (f : Frame) : Type 0 where
  pub header_fits : IsHeader f.header
  pub tag_fits : length f.tag ≡ 16

-- "AS01"
abbrev pub magic : List ℕ
magic = 0x41 ∷ 0x53 ∷ 0x30 ∷ 0x31 ∷ []

abbrev pub version : ℕ
version = 1

-- Header::to_bytes
unfoldable pub to_bytes : Header → List ℕ
to_bytes h =
    let out = put_le32 h.reader_id [] in
    let out1 = put_le32 h.door_id out in
    let out2 = put_le64 h.ts_unix_ms out1 in
    let out3 = put_le64 h.seq out2 in let out4 = put_le32 h.key_version out3 in out4 ++ h.nonce

unfoldable pub serialize : Frame → List ℕ
serialize f =
    let out = magic ++ version ∷ [] in
    let out1 = put_le32 f.header.reader_id out in
    let out2 = put_le32 f.header.door_id out1 in
    let out3 = put_le64 f.header.ts_unix_ms out2 in
    let out4 = put_le64 f.header.seq out3 in
    let out5 = put_le32 f.header.key_version out4 in
    let out6 = out5 ++ f.header.nonce in
    let out7 = put_le32 (length f.ct % u32_mod) out6 in let out8 = out7 ++ f.ct in out8 ++ f.tag

-- The fixed fields in front of some rest.
abbrev pub header_then : Header → List ℕ → List ℕ
header_then h rest =
    le32 h.reader_id
    ++ (le32 h.door_id
        ++ (le64 h.ts_unix_ms ++ (le64 h.seq ++ (le32 h.key_version ++ (h.nonce ++ rest)))))

pub to_bytes_layout : (h : Header) → to_bytes h ≡ header_then h []
unfolding to_bytes put_le32 put_le64
to_bytes_layout h = simp (append_assoc, append-nil)

pub serialize_layout :
    (f : Frame)
    → serialize f
      ≡ magic ++ (version ∷ header_then f.header (le32 (length f.ct % u32_mod) ++ (f.ct ++ f.tag)))
unfolding serialize put_le32 put_le64
serialize_layout f = simp append_assoc

-- A frame's bytes before the magic and the ciphertext's length are the bytes of its header.
pub serialize-to_bytes :
    (f : Frame)
    → serialize f
      ≡ magic
        ++ (version ∷ (to_bytes f.header ++ (le32 (length f.ct % u32_mod) ++ (f.ct ++ f.tag))))
serialize-to_bytes f =
    rw (serialize_layout f, to_bytes_layout f.header) (simp (append_assoc, append-nil))

pub length-to_bytes : (h : Header) → length h.nonce ≡ 24 → length (to_bytes h) ≡ 52
length-to_bytes h n =
    rw (to_bytes_layout h) (omega (arith, length-append {0}, length-le32, length-le64))
