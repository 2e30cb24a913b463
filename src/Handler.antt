-- ===== src/Handler.antt =====
-- access_core: handle_frame.hpp, handle_frame.cpp, frame_decryptor.hpp and frame_decryptor.cpp, with
-- the interface access_decision/access_store.hpp. `none` for a store is a null pointer. The clock is
-- read once: `now` is an argument.
pub mod Checks
pub mod Accepted
pub mod Outcomes
pub mod History
pub mod Replay
pub mod Sealed
use access_security_system_e.Common.{
  ℕ, ◌+◌, ◌-◌, ◌%◌, ◌<◌, ◌≡◌, refl, Bool, true, false, not, ◌&&◌, ◌||◌, Option, none, some, List,
  [], ◌∷◌, ◌++◌, String, ◌⊎◌, inl, inr, arith, ltb, leb, ◌==◌, if◌then◌else◌, replicate,
}
use access_security_system_e.Common.Text.{str_eq}
use access_security_system_e.Common.Maps.{Map, lookup, update}
use access_security_system_e.Protocol.Frame.{Header, Frame, to_bytes}
use access_security_system_e.Protocol.Parser.{
  Result, ok, err, parse_frame, ParseError, too_small, bad_magic, bad_version, ct_len_exceeds_limit,
  length_mismatch, trailing_bytes, out_of_bounds,
}
use access_security_system_e.Protocol.ReplayWindow.{ReplayWindow, new_window, contains, remember}
use access_security_system_e.Crypto.{Sodium}
use access_security_system_e.Crypto.Aead.{
  CipherMode, xchacha20_poly1305, chacha20_poly1305, open_with_nonce,
}
use access_security_system_e.KeyManager.{
  KeyManager, is_previous_version, derive_aead_key, master_as_aead_key,
}

-- IAccessStore, as its client reads it, where every lookup returns.
pub record AccessStore : Type 0 where
  pub role_for_card_hmac : List ℕ → Option (List ℕ)
  pub is_allowed : ℕ → List ℕ → Bool
  pub current_key_version_for_reader : ℕ → ℕ
  pub is_reader_allowed_door : ℕ → ℕ → Bool

pub record FrameHandlerConfig : Type 0 where
  pub anti_replay_enabled : Bool
  pub replay_window_size : ℕ
  pub max_ct_len : ℕ
  pub max_skew_ms : ℕ
  pub allow_previous_key_version : Bool
  pub enforce_reader_door_binding : Bool
  pub key_derivation_mode : String
  pub aad_mode : String
  pub pepper_mode : String
  pub cipher_mode : String
  pub nonce_mode : String

pub record HandleResult : Type 0 where
  pub allow : Bool
  pub reason : String
  pub plaintext : List ℕ
  pub header : Header

-- Header{}
abbrev pub empty_header : Header
empty_header = record {
  reader_id = 0;
  door_id = 0;
  ts_unix_ms = 0;
  seq = 0;
  key_version = 0;
  nonce = replicate 24 0;
}

unfoldable pub make_error : String → Header → HandleResult
make_error reason header = record {
  allow = false;
  reason = reason;
  plaintext = [];
  header = header;
}

-- parseErrorToCode; a read out of bounds throws nothing.
unfoldable pub parse_error_to_code : ParseError → String
parse_error_to_code too_small = "frame_too_small"
parse_error_to_code bad_magic = "bad_magic"
parse_error_to_code bad_version = "bad_protocol_version"
parse_error_to_code ct_len_exceeds_limit = "ciphertext_too_large"
parse_error_to_code length_mismatch = "frame_truncated"
parse_error_to_code trailing_bytes = "frame_trailing_bytes"
parse_error_to_code out_of_bounds = "parse_error"

-- The current key version of the frame's reader, or the refusal.
unfoldable pub validate_reader : Option AccessStore → FrameHandlerConfig → Frame → HandleResult ⊎ ℕ
validate_reader none c f = inl (make_error "no_store" f.header)
validate_reader (some store) c f =
    let current = store.current_key_version_for_reader f.header.reader_id in
    if current == 0
    then inl (make_error "unknown_reader" f.header)
    else if c.enforce_reader_door_binding
        && not (store.is_reader_allowed_door f.header.reader_id f.header.door_id)
    then inl (make_error "reader_door_forbidden" f.header)
    else inr current

unfoldable pub key_version_ok : FrameHandlerConfig → ℕ → ℕ → Bool
unfolding is_previous_version
key_version_ok c current kv =
    (kv == current) || (c.allow_previous_key_version && is_previous_version current kv)

unfoldable pub validate_key_version : FrameHandlerConfig → ℕ → Frame → HandleResult ⊎ Unit {0}
validate_key_version c current f =
    if key_version_ok c current f.header.key_version
    then inr tt
    else inl (make_error "bad_key_version" f.header)

abbrev pub Windows : Type 0
Windows = Map ReplayWindow

-- getOrCreateWindow: the reader's window, and the map in which it now is.
unfoldable pub window_size : FrameHandlerConfig → ℕ
window_size c = if c.replay_window_size == 0 then 1 else c.replay_window_size

unfoldable pub reader_window : FrameHandlerConfig → Windows → ℕ → ReplayWindow
unfolding window_size
reader_window c ws reader_id = elim (lookup reader_id ws) [
  | none ↦ new_window (window_size c)
  | some w ↦ w
]

unfoldable pub get_or_create_window : FrameHandlerConfig → Windows → ℕ → Windows
get_or_create_window c ws reader_id = update reader_id (reader_window c ws reader_id) ws

-- checkReplay: with the check off there is no window.
unfoldable pub check_replay :
    FrameHandlerConfig → Windows → Frame → (HandleResult ⊎ Option ReplayWindow) × Windows
unfolding get_or_create_window
check_replay c ws f =
    if c.anti_replay_enabled
    then (let w = reader_window c ws f.header.reader_id in
        let ws' = get_or_create_window c ws f.header.reader_id in
        if contains w f.header.seq
        then (inl (make_error "replay" f.header), ws')
        else (inr (some w), ws'))
    else (inr none, ws)

unfoldable pub cipher_of : String → CipherMode
cipher_of mode = if str_eq mode "chacha20" then chacha20_poly1305 else xchacha20_poly1305

unfoldable pub check_timestamp : ℕ → ℕ → ℕ → Option String
check_timestamp max_skew_ms now ts =
    if max_skew_ms == 0
    then none
    else (let diff = if leb ts now then now - ts else ts - now in
        if ltb max_skew_ms diff
        then some (if leb ts now then "too_old" else "too_future")
        else none)

module _ (lib : Sodium) (m : KeyManager) (c : FrameHandlerConfig) where
  unfoldable pub derive_key : Frame → Option (List ℕ)
  derive_key f =
      if str_eq c.key_derivation_mode "direct"
      then some (master_as_aead_key m)
      else derive_aead_key lib m f.header.reader_id f.header.key_version

  -- FrameDecryptor::decryptFrame
  unfoldable pub decrypt_frame : List ℕ → Frame → Option (List ℕ)
  unfolding cipher_of
  decrypt_frame key f =
      let aad = if str_eq c.aad_mode "none" then [] else to_bytes f.header in
      open_with_nonce lib (cipher_of c.cipher_mode) key f.ct f.tag aad f.header.nonce

  -- FrameDecryptor::decrypt: the plaintext, or the error's name.
  unfoldable pub decrypt : ℕ → List ℕ → Frame → String ⊎ List ℕ
  unfolding decrypt_frame check_timestamp
  decrypt now key f = elim (decrypt_frame key f) [
    | none ↦ inl "decrypt_failed"
    | some plaintext ↦ elim (check_timestamp c.max_skew_ms now f.header.ts_unix_ms) [
      | none ↦ inr plaintext
      | some e ↦ inl e
    ]
  ]

  -- tryDecrypt. FrameDecryptor catches what it throws, so the last two handlers never run.
  unfoldable pub remember_seq : Option ReplayWindow → Frame → Windows → Windows
  remember_seq none f ws = ws
  remember_seq (some w) f ws = update f.header.reader_id (remember w f.header.seq) ws

  unfoldable pub try_decrypt : ℕ → Option ReplayWindow → Windows → Frame → HandleResult × Windows
  unfolding decrypt remember_seq
  try_decrypt now window ws f = elim (derive_key f) [
    | none ↦ (make_error "key_derivation_failed" f.header, ws)
    | some key ↦ elim (decrypt now key f) [
      | inl e ↦ (make_error e f.header, ws)
      | inr plaintext ↦ (
        record { allow = true; reason = "ok"; plaintext = plaintext; header = f.header },
        remember_seq window f ws,
      )
    ]
  ]

  -- FrameHandler::handle, after the parser.
  unfoldable pub handle_parsed : Option AccessStore → ℕ → Windows → Frame → HandleResult × Windows
  handle_parsed store now ws f = elim (validate_reader store c f) [
    | inl e ↦ (e, ws)
    | inr current ↦ elim (validate_key_version c current f) [
      | inl e ↦ (e, ws)
      | inr _ ↦
          (let (verdict, ws') = check_replay c ws f in
            elim verdict [ inl e ↦ (e, ws') | inr window ↦ try_decrypt now window ws' f ])
    ]
  ]

  unfoldable pub handle : Option AccessStore → ℕ → Windows → List ℕ → HandleResult × Windows
  unfolding handle_parsed
  handle store now ws bytes = elim (parse_frame bytes c.max_ct_len) [
    | err e ↦ (make_error (parse_error_to_code e) empty_header, ws)
    | ok f ↦ handle_parsed store now ws f
  ]
