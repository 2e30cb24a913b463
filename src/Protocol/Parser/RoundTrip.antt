-- ===== src/Protocol/Parser/RoundTrip.antt =====
-- The parser of frame_parser.cpp and `serialize` of frame.cpp are inverse to one another.
use native.Mathlib.Nat.{mod-eq_of_lt}
use access_security_system_e.Common.{
  ℕ, ◌+◌, ◌≤◌, ◌<◌, ◌%◌, ◌≡◌, refl, ap, sym, ◌∙◌, not, List, [], ◌∷◌, ◌++◌, arith, length, All, ltb,
  le→ltb, length-append, bytes_eq_refl, bytes_eq_sound, append-nil,
}
use access_security_system_e.Protocol.Codec.{u32_mod, le32}
use access_security_system_e.Protocol.Codec.Inverse.{IsByte, length-le32, length-le64}
use access_security_system_e.Protocol.Frame.{
  Header, IsHeader, Frame, IsFrame, magic, version, serialize, header_then, serialize_layout,
}
use access_security_system_e.Protocol.Parser.{
  ok, Ptr, copy_bytes, read_byte, read_le32, read_le64, require_bytes, throw_unless,
  validate_min_size, validate_magic, validate_version, parse_header, parse_ciphertext, parse_tag,
  validate_no_trailing_bytes, parse_frame, ParseError,
}
use access_security_system_e.Protocol.Parser.Steps.{
  bind_elim, ok-inj, read_le32-le32, read_le64-le64, copy_bytes-append, read_le32_inv,
  read_le64_inv, copy_bytes_inv,
}

require_bytes_enough :
    (n : ℕ) (msg : ParseError) (p : Ptr) → n ≤ length p → require_bytes n msg p ≡ ok tt
unfolding require_bytes
require_bytes_enough n msg p h = rw (le→ltb (length p) n h)

copy_bytes_all : (n : ℕ) (a : List ℕ) → length a ≡ n → copy_bytes n a ≡ ok (a, [])
copy_bytes_all n a h = ap (copy_bytes n) (sym (append-nil a)) ∙ copy_bytes-append n a [] h

length-header_then :
    (h : Header) (rest : List ℕ)
    → length h.nonce ≡ 24
    → length (header_then h rest) ≡ 52 + length rest
length-header_then h rest n = omega (arith, length-append {0}, length-le32, length-le64)

validate_magic-magic : (p : Ptr) → validate_magic (magic ++ p) ≡ ok p
unfolding validate_magic
validate_magic-magic p = rw (
  require_bytes_enough 4 ParseError.too_small (magic ++ p) (omega arith),
  copy_bytes-append 4 magic p refl,
  bytes_eq_refl magic,
)

validate_version-version : (p : Ptr) → validate_version (version ∷ p) ≡ ok p
unfolding validate_version read_byte
validate_version-version p =
    rw (require_bytes_enough 1 ParseError.too_small (version ∷ p) (omega arith))

parse_header-header_then :
    (h : Header) (rest : List ℕ)
    → IsHeader h
    → 4 ≤ length rest
    → parse_header (header_then h rest) ≡ ok (h, rest)
unfolding parse_header
parse_header-header_then h rest w l = rw (
  require_bytes_enough 56 ParseError.too_small (header_then h rest)
      (omega (arith, length-header_then h rest w.nonce_fits)),
  read_le32-le32 _ _ w.reader_fits,
  read_le32-le32 _ _ w.door_fits,
  read_le64-le64 _ _ w.ts_fits,
  read_le64-le64 _ _ w.seq_fits,
  read_le32-le32 _ _ w.key_fits,
  copy_bytes-append 24 h.nonce rest w.nonce_fits,
)

parse_ciphertext-le32 :
    (max : ℕ) (ct rest : List ℕ)
    → length ct ≤ max
    → max < u32_mod
    → 16 ≤ length rest
    → parse_ciphertext max (le32 (length ct % u32_mod) ++ (ct ++ rest)) ≡ ok (ct, rest)
unfolding parse_ciphertext
parse_ciphertext-le32 max ct rest m small l =
    let len : length ct % u32_mod ≡ length ct = mod-eq_of_lt (omega arith) in
    rw (
      len,
      read_le32-le32 (length ct) (ct ++ rest) (omega arith),
      le→ltb max (length ct) m,
      require_bytes_enough (length ct + 16) ParseError.length_mismatch (ct ++ rest)
          (omega (arith, length-append ct rest)),
      copy_bytes-append (length ct) ct rest refl,
    )

-- Every well-formed frame whose ciphertext is within the parser's limit, a limit below 2^32, is
-- read back whole from its serialized bytes.
pub parse_frame-serialize :
    (f : Frame) (max : ℕ)
    → IsFrame f
    → length f.ct ≤ max
    → max < u32_mod
    → parse_frame (serialize f) max ≡ ok f
unfolding parse_frame parse_tag validate_no_trailing_bytes validate_min_size
parse_frame-serialize f max w m small =
    let tail : List ℕ = le32 (length f.ct % u32_mod) ++ (f.ct ++ f.tag) in
    let long : 20 ≤ length tail = omega (arith, length-append {0}, length-le32, w.tag_fits) in
    rw (
      serialize_layout f,
      le→ltb (length (magic ++ (version ∷ header_then f.header tail))) 77
          (omega (arith, length-header_then f.header tail w.header_fits.nonce_fits)),
      validate_magic-magic (version ∷ header_then f.header tail),
      validate_version-version (header_then f.header tail),
      parse_header-header_then f.header tail w.header_fits (omega arith),
      parse_ciphertext-le32 max f.ct f.tag m small (omega (arith, w.tag_fits)),
      copy_bytes_all 16 f.tag w.tag_fits,
    )

validate_magic_inv :
    (p q : Ptr) → All IsByte p → validate_magic p ≡ ok q → (magic ++ q ≡ p) × All IsByte q
unfolding validate_magic
validate_magic_inv p q b e = bind_elim (require_bytes 4 ParseError.too_small p) _ q e λ _ _ e1.
    bind_elim (copy_bytes 4 p) _ q e1 λ r s e2.
      let (split, rest, _) = copy_bytes_inv 4 p r.0 r.1 b s in
      ground (arith, bytes_eq_sound r.0 magic, split, rest)

validate_version_inv :
    (p q : Ptr) → All IsByte p → validate_version p ≡ ok q → (version ∷ q ≡ p) × All IsByte q
unfolding validate_version read_byte require_bytes
validate_version_inv [] q h e = absurd (cc)
validate_version_inv (b ∷ p) q h e = ground arith

parse_header_inv :
    (p : Ptr) (r : Header × Ptr)
    → All IsByte p
    → parse_header p ≡ ok r
    → (header_then r.0 r.1 ≡ p) × All IsByte r.1 × IsHeader r.0
unfolding parse_header
parse_header_inv p r b e = bind_elim (require_bytes 56 ParseError.too_small p) _ r e λ _ _ e0.
    bind_elim (read_le32 p) _ r e0 λ r1 s1 e1.
      let i1 = read_le32_inv p r1.0 r1.1 b s1 in
      bind_elim (read_le32 r1.1) _ r e1 λ r2 s2 e2.
        let i2 = read_le32_inv r1.1 r2.0 r2.1 i1.1 s2 in
        bind_elim (read_le64 r2.1) _ r e2 λ r3 s3 e3.
          let i3 = read_le64_inv r2.1 r3.0 r3.1 i2.1 s3 in
          bind_elim (read_le64 r3.1) _ r e3 λ r4 s4 e4.
            let i4 = read_le64_inv r3.1 r4.0 r4.1 i3.1 s4 in
            bind_elim (read_le32 r4.1) _ r e4 λ r5 s5 e5.
              let i5 = read_le32_inv r4.1 r5.0 r5.1 i4.1 s5 in
              bind_elim (copy_bytes 24 r5.1) _ r e5 λ r6 s6 e6.
                let i6 = copy_bytes_inv 24 r5.1 r6.0 r6.1 i5.1 s6 in
                rw (← ok-inj e6) (
                  rw (i6.0, i5.0, i4.0, i3.0, i2.0, i1.0) refl,
                  i6.1,
                  record {
                    reader_fits = i1.2;
                    door_fits = i2.2;
                    ts_fits = i3.2;
                    seq_fits = i4.2;
                    key_fits = i5.2;
                    nonce_fits = i6.2;
                  },
                )

parse_ciphertext_inv :
    (max : ℕ) (p : Ptr) (r : List ℕ × Ptr)
    → All IsByte p
    → parse_ciphertext max p ≡ ok r
    → (le32 (length r.0 % u32_mod) ++ (r.0 ++ r.1) ≡ p) × All IsByte r.1 × (length r.0 ≤ max)
unfolding parse_ciphertext
parse_ciphertext_inv max p r b e = bind_elim (read_le32 p) _ r e λ r1 s1 e1.
    let i1 = read_le32_inv p r1.0 r1.1 b s1 in
    bind_elim (throw_unless (not (ltb max r1.0)) ParseError.ct_len_exceeds_limit) _ r e1
      λ _ small e2.
        bind_elim (require_bytes (r1.0 + 16) ParseError.length_mismatch r1.1) _ r e2 λ _ _ e3.
          let i2 = copy_bytes_inv r1.0 r1.1 r.0 r.1 i1.1 e3 in
          let len : length r.0 % u32_mod ≡ r1.0 = rw i2.2 (mod-eq_of_lt i1.2) in
          (rw (len, i2.0) i1.0, i2.1, ground (arith, i2.2))

no_trailing_inv : (p : Ptr) (u : Unit {0}) → validate_no_trailing_bytes p ≡ ok u → p ≡ []
unfolding validate_no_trailing_bytes
no_trailing_inv [] u e = refl
no_trailing_inv (b ∷ p) u e = absurd (cc)

-- A list of bytes that parses is exactly the serialization of the frame that it parses to, so no
-- two byte strings parse to one frame; and that frame is well-formed, with a ciphertext within the
-- limit.
pub serialize-parse_frame :
    (bytes : List ℕ) (max : ℕ) (f : Frame)
    → All IsByte bytes
    → parse_frame bytes max ≡ ok f
    → (serialize f ≡ bytes) × IsFrame f × (length f.ct ≤ max)
unfolding parse_frame parse_tag
serialize-parse_frame bytes max f b e = bind_elim (validate_min_size bytes) _ f e λ _ _ e0.
    bind_elim (validate_magic bytes) _ f e0 λ p s e1.
      let i1 = validate_magic_inv bytes p b s in
      bind_elim (validate_version p) _ f e1 λ p1 s1 e2.
        let i2 = validate_version_inv p p1 i1.1 s1 in
        bind_elim (parse_header p1) _ f e2 λ h s2 e3.
          let i3 = parse_header_inv p1 h i2.1 s2 in
          bind_elim (parse_ciphertext max h.1) _ f e3 λ c s3 e4.
            let i4 = parse_ciphertext_inv max h.1 c i3.1 s3 in
            bind_elim (copy_bytes 16 c.1) _ f e4 λ t s4 e5.
              let i5 = copy_bytes_inv 16 c.1 t.0 t.1 i4.1 s4 in
              bind_elim (validate_no_trailing_bytes t.1) _ f e5 λ u s5 e6.
                let empty = no_trailing_inv t.1 u s5 in
                let tag : t.0 ≡ c.1 =
                  sym (append-nil t.0) ∙ ap (λ (l : List ℕ). t.0 ++ l) (sym empty) ∙ i5.0 in
                rw (← ok-inj e6) (
                  serialize_layout _ ∙ rw (tag, i4.0, i3.0, i2.0) i1.0,
                  record { header_fits = i3.2; tag_fits = i5.2 },
                  i4.2,
                )
