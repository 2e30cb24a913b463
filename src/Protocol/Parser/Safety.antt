-- ===== src/Protocol/Parser/Safety.antt =====
-- The parser of frame_parser.cpp never reads past the end of the buffer, and what each refusal means.
use access_security_system_e.Common.{
  ℕ, ◌+◌, ◌-◌, ◌≤◌, ◌<◌, ◌≡◌, ◌≢◌, not, List, [], ◌∷◌, arith, length, ltb, lt→ltb,
}
use access_security_system_e.Protocol.Frame.{Header}
use access_security_system_e.Protocol.Parser.{
  ok, err, Ptr, copy_bytes, read_byte, read_le32, read_le64, require_bytes, throw_unless,
  validate_min_size, validate_magic, validate_version, parse_header, parse_ciphertext, parse_tag,
  validate_no_trailing_bytes, parse_frame, ParseError,
}
use access_security_system_e.Protocol.Parser.Steps.{
  bind_elim, ok-inj, NoFault, NoFault-bind, read_le32-NoFault, read_le64-NoFault,
  copy_bytes-NoFault, length-read_le32, length-read_le64, length-copy_bytes,
}

require_bytes-NoFault :
    (n : ℕ) (m : ParseError) (p : Ptr)
    → m ≢ ParseError.out_of_bounds
    → NoFault (require_bytes n m p)
unfolding require_bytes
require_bytes-NoFault n m p h = ground arith

require_bytes_inv :
    (n : ℕ) (m : ParseError) (p : Ptr) (u : Unit {0}) → require_bytes n m p ≡ ok u → n ≤ length p
unfolding require_bytes
require_bytes_inv n m p u e = ground arith

validate_magic-NoFault : (p : Ptr) → 4 ≤ length p → NoFault (validate_magic p)
unfolding validate_magic
validate_magic-NoFault p h =
    NoFault-bind (require_bytes 4 ParseError.too_small p) _
      (require_bytes-NoFault 4 ParseError.too_small p (λ e. cc))
      λ _ _. NoFault-bind (copy_bytes 4 p) _ (copy_bytes-NoFault 4 p h) λ r _. ground arith

length-validate_magic : (p q : Ptr) → validate_magic p ≡ ok q → length q ≡ length p - 4
unfolding validate_magic
length-validate_magic p q e =
    bind_elim (require_bytes 4 ParseError.too_small p) _ q e λ _ _ e1.
      bind_elim (copy_bytes 4 p) _ q e1 λ r s e2. ground (arith, length-copy_bytes 4 p r s)

validate_version-NoFault : (p : Ptr) → NoFault (validate_version p)
unfolding validate_version require_bytes read_byte
validate_version-NoFault [] = λ e. cc
validate_version-NoFault (b ∷ p) = ground arith

length-validate_version : (p q : Ptr) → validate_version p ≡ ok q → length q ≡ length p - 1
unfolding validate_version require_bytes read_byte
length-validate_version [] q e = absurd (cc)
length-validate_version (b ∷ p) q e = ground arith

parse_header-NoFault : (p : Ptr) → NoFault (parse_header p)
unfolding parse_header
parse_header-NoFault p =
    NoFault-bind (require_bytes 56 ParseError.too_small p) _
      (require_bytes-NoFault 56 ParseError.too_small p (λ e. cc))
      λ u s.
        let l0 = require_bytes_inv 56 ParseError.too_small p u s in
        NoFault-bind (read_le32 p) _ (read_le32-NoFault p (omega arith)) λ r1 s1.
          let l1 = length-read_le32 p r1 s1 in
          NoFault-bind (read_le32 r1.1) _ (read_le32-NoFault r1.1 (omega arith)) λ r2 s2.
            let l2 = length-read_le32 r1.1 r2 s2 in
            NoFault-bind (read_le64 r2.1) _ (read_le64-NoFault r2.1 (omega arith)) λ r3 s3.
              let l3 = length-read_le64 r2.1 r3 s3 in
              NoFault-bind (read_le64 r3.1) _ (read_le64-NoFault r3.1 (omega arith)) λ r4 s4.
                let l4 = length-read_le64 r3.1 r4 s4 in
                NoFault-bind (read_le32 r4.1) _ (read_le32-NoFault r4.1 (omega arith)) λ r5 s5.
                  let l5 = length-read_le32 r4.1 r5 s5 in
                  NoFault-bind (copy_bytes 24 r5.1) _ (copy_bytes-NoFault 24 r5.1 (omega arith))
                    λ r6 s6 e. cc

length-parse_header :
    (p : Ptr) (r : Header × Ptr)
    → parse_header p ≡ ok r
    → (length r.1 ≡ length p - 52) × (56 ≤ length p)
unfolding parse_header
length-parse_header p r e = bind_elim (require_bytes 56 ParseError.too_small p) _ r e λ u s e0.
    let l0 = require_bytes_inv 56 ParseError.too_small p u s in
    bind_elim (read_le32 p) _ r e0 λ r1 s1 e1.
      let l1 = length-read_le32 p r1 s1 in
      bind_elim (read_le32 r1.1) _ r e1 λ r2 s2 e2.
        let l2 = length-read_le32 r1.1 r2 s2 in
        bind_elim (read_le64 r2.1) _ r e2 λ r3 s3 e3.
          let l3 = length-read_le64 r2.1 r3 s3 in
          bind_elim (read_le64 r3.1) _ r e3 λ r4 s4 e4.
            let l4 = length-read_le64 r3.1 r4 s4 in
            bind_elim (read_le32 r4.1) _ r e4 λ r5 s5 e5.
              let l5 = length-read_le32 r4.1 r5 s5 in
              bind_elim (copy_bytes 24 r5.1) _ r e5 λ r6 s6 e6.
                let l6 = length-copy_bytes 24 r5.1 r6 s6 in rw (← ok-inj e6) (omega arith)

parse_ciphertext-NoFault : (max : ℕ) (p : Ptr) → 4 ≤ length p → NoFault (parse_ciphertext max p)
unfolding parse_ciphertext
parse_ciphertext-NoFault max p h = NoFault-bind (read_le32 p) _ (read_le32-NoFault p h) λ r1 s1.
    NoFault-bind (throw_unless (not (ltb max r1.0)) ParseError.ct_len_exceeds_limit) _
      (ground arith)
      λ _ _.
        NoFault-bind (require_bytes (r1.0 + 16) ParseError.length_mismatch r1.1) _
          (require_bytes-NoFault (r1.0 + 16) ParseError.length_mismatch r1.1 (λ e. cc))
          λ u s.
            let l = require_bytes_inv (r1.0 + 16) ParseError.length_mismatch r1.1 u s in
            copy_bytes-NoFault r1.0 r1.1 (omega arith)

length-parse_ciphertext :
    (max : ℕ) (p : Ptr) (r : List ℕ × Ptr) → parse_ciphertext max p ≡ ok r → 16 ≤ length r.1
unfolding parse_ciphertext
length-parse_ciphertext max p r e = bind_elim (read_le32 p) _ r e λ r1 s1 e1.
    bind_elim (throw_unless (not (ltb max r1.0)) ParseError.ct_len_exceeds_limit) _ r e1 λ _ _ e2.
      bind_elim (require_bytes (r1.0 + 16) ParseError.length_mismatch r1.1) _ r e2 λ u s e3.
        let l = require_bytes_inv (r1.0 + 16) ParseError.length_mismatch r1.1 u s in
        omega (arith, length-copy_bytes r1.0 r1.1 r e3)

no_trailing-NoFault : (p : Ptr) → NoFault (validate_no_trailing_bytes p)
unfolding validate_no_trailing_bytes
no_trailing-NoFault [] = λ e. cc
no_trailing-NoFault (b ∷ p) = λ e. cc

-- Whatever the bytes and the limit, no read of the parser goes past the end of the buffer.
pub parse_frame-NoFault :
    (bytes : List ℕ) (max : ℕ) → parse_frame bytes max ≢ err ParseError.out_of_bounds
unfolding parse_frame parse_tag validate_min_size
parse_frame-NoFault bytes max = NoFault-bind (validate_min_size bytes) _ (ground arith) λ _ s0.
    let l0 : 77 ≤ length bytes = ground arith in
    NoFault-bind (validate_magic bytes) _ (validate_magic-NoFault bytes (omega arith)) λ p s1.
      NoFault-bind (validate_version p) _ (validate_version-NoFault p) λ p1 s2.
        NoFault-bind (parse_header p1) _ (parse_header-NoFault p1) λ h s3.
          let l3 = length-parse_header p1 h s3 in
          NoFault-bind (parse_ciphertext max h.1) _ (parse_ciphertext-NoFault max h.1 (omega arith))
            λ c s4.
              let l4 = length-parse_ciphertext max h.1 c s4 in
              NoFault-bind (copy_bytes 16 c.1) _ (copy_bytes-NoFault 16 c.1 l4) λ t s5.
                NoFault-bind (validate_no_trailing_bytes t.1) _ (no_trailing-NoFault t.1)
                  λ _ _ e. cc

-- A buffer shorter than the smallest frame is refused as too small.
pub parse_frame_short :
    (bytes : List ℕ) (max : ℕ)
    → length bytes < 77
    → parse_frame bytes max ≡ err ParseError.too_small
unfolding parse_frame validate_min_size
parse_frame_short bytes max h = rw (lt→ltb (length bytes) 77 h)
