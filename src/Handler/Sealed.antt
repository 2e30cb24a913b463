-- ===== src/Handler/Sealed.antt =====
-- A frame that a reader seals with its derived key passes the handler.
use access_security_system_e.Common.{
  ℕ, ◌<◌, ◌≤◌, ◌≡◌, ap, true, false, not, ◌&&◌, none, some, List, [], arith, length, ◌==◌,
  if◌then◌else◌,
}
use access_security_system_e.Common.Text.{str_eq}
use access_security_system_e.Protocol.Codec.{u32_mod}
use access_security_system_e.Protocol.Frame.{Header, IsHeader, Frame, to_bytes, serialize}
use access_security_system_e.Protocol.Parser.RoundTrip.{parse_frame-serialize}
use access_security_system_e.Protocol.ReplayWindow.{contains}
use access_security_system_e.Crypto.{Sodium, HasAead}
use access_security_system_e.Crypto.Aead.{seal_with_nonce, open-seal}
use access_security_system_e.KeyManager.{KeyManager}
use access_security_system_e.Handler.{
  AccessStore, FrameHandlerConfig, Windows, key_version_ok, reader_window, cipher_of,
  check_timestamp, derive_key, decrypt_frame, handle,
}
use access_security_system_e.Handler.Accepted.{accepted, handle_accepts}

module _ (lib : Sodium) (law : HasAead lib) (m : KeyManager) (c : FrameHandlerConfig) where
  abbrev aad_of : Header → List ℕ
  aad_of h = if str_eq c.aad_mode "none" then [] else to_bytes h

  -- A frame under a key: its plaintext sealed with the header as additional data.
  abbrev pub sealed : List ℕ → Header → List ℕ → Frame
  sealed key h plaintext =
      let out = seal_with_nonce lib (cipher_of c.cipher_mode) key plaintext (aad_of h) h.nonce in
      record { header = h; ct = out.ct; tag = out.tag }

  sealed_opens :
      (key : List ℕ) (h : Header) (plaintext : List ℕ)
      → decrypt_frame lib m c key (sealed key h plaintext) ≡ some plaintext
  unfolding decrypt_frame
  sealed_opens key h plaintext =
      (open-seal lib law (cipher_of c.cipher_mode) key plaintext (aad_of h) h.nonce).0

  -- Under the laws of the two ciphers, what a reader seals with its derived key and serializes is
  -- accepted by the handler, with the same plaintext and header, when its reader, door, key
  -- version, sequence number and timestamp pass, and the plaintext is within the parser's limit,
  -- which is below 2^32.
  pub sealed-accepted :
      (store : AccessStore) (now : ℕ) (ws : Windows) (h : Header) (plaintext key : List ℕ)
      → IsHeader h
      → length plaintext ≤ c.max_ct_len
      → c.max_ct_len < u32_mod
      → derive_key lib m c (sealed key h plaintext) ≡ some key
      → (store.current_key_version_for_reader h.reader_id == 0) ≡ false
      → (c.enforce_reader_door_binding && not (store.is_reader_allowed_door h.reader_id h.door_id))
        ≡ false
      → key_version_ok c (store.current_key_version_for_reader h.reader_id) h.key_version ≡ true
      → (c.anti_replay_enabled && contains (reader_window c ws h.reader_id) h.seq) ≡ false
      → check_timestamp c.max_skew_ms now h.ts_unix_ms ≡ none
      → (handle lib m c (some store) now ws (serialize (sealed key h plaintext))).0
        ≡ accepted lib m c (sealed key h plaintext) plaintext
  sealed-accepted store now ws h plaintext key fits short small derived known bound version fresh
        time =
      let f = sealed key h plaintext in
      let (o, n, t) =
        open-seal lib law (cipher_of c.cipher_mode) key plaintext (aad_of h) h.nonce in
      ap (λ out. out.0)
        (handle_accepts lib m c store now ws (serialize f) f plaintext
          (parse_frame-serialize f c.max_ct_len (record { header_fits = fits; tag_fits = t })
            (omega arith) (omega arith))
          (record {
            reader_known = known;
            door_bound = bound;
            version_ok = version;
            fresh = fresh;
            authentic = (key, derived, sealed_opens key h plaintext);
            on_time = time;
          }))
