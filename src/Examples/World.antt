-- ===== src/Examples/World.antt =====
-- A small system: a toy cipher with the laws of the real one, one reader, one door, one card.
use access_security_system_e.Common.{
  ℕ, ◌+◌, ◌%◌, ◌≡◌, refl, true, Option, none, some, List, [], ◌∷◌, arith, replicate, bytes_eq,
  bytes_eq_refl, if◌then◌else◌, ◌==◌,
}
use access_security_system_e.Common.Text.{codes}
use access_security_system_e.Protocol.Frame.{Header, IsHeader, Frame, IsFrame, serialize}
use access_security_system_e.Crypto.{Sodium, HasHmacLength, HasAead}
use access_security_system_e.KeyManager.{KeyManager}
use access_security_system_e.Handler.{AccessStore, FrameHandlerConfig}
use access_security_system_e.Handler.Sealed.{sealed}
use access_security_system_e.Payload.{JsonLib}
use access_security_system_e.Common.Maps.{lookup}
use access_security_system_e.Common.Sets.{mem}
use access_security_system_e.Protocol.Parser.{ok, parse_frame}
use access_security_system_e.Protocol.Parser.RoundTrip.{parse_frame-serialize}
use access_security_system_e.Protocol.ReplayWindow.{new_window, is_too_old, contains}
use access_security_system_e.Crypto.Aead.{seal_with_nonce, open_with_nonce}
use access_security_system_e.Handler.{
  reader_window, key_version_ok, cipher_of, check_timestamp, derive_key, decrypt_frame,
}
use access_security_system_e.Handler.Accepted.{IsAccepted}

abbrev sum : List ℕ → ℕ
sum [] = 0
sum (x ∷ xs) = x + sum xs

abbrev toy_mac : List ℕ → List ℕ → List ℕ
toy_mac key message = replicate 32 ((1 + sum key + sum message) % 256)

abbrev toy_tag : List ℕ → List ℕ → List ℕ → List ℕ → List ℕ
toy_tag key nonce aad text = replicate 16 ((sum key + sum nonce + sum aad + sum text) % 256)

abbrev toy_open : List ℕ → List ℕ → List ℕ → List ℕ → List ℕ → Option (List ℕ)
toy_open key nonce aad text tag =
    if bytes_eq tag (toy_tag key nonce aad text) then some text else none

abbrev pub toy : Sodium
toy = record {
  hmac_sha256 = toy_mac;
  xchacha_encrypt = λ key nonce aad text. (text, toy_tag key nonce aad text);
  xchacha_decrypt = toy_open;
  chacha_encrypt = λ key nonce aad text. (text, toy_tag key nonce aad text);
  chacha_decrypt = toy_open;
}

pub toy_hmac : HasHmacLength toy
toy_hmac = record { hmac_length = λ key message. refl }

toy_opens :
    (key nonce aad text : List ℕ)
    → toy_open key nonce aad text (toy_tag key nonce aad text) ≡ some text
toy_opens key nonce aad text = rw (bytes_eq_refl (toy_tag key nonce aad text)) refl

pub toy_aead : HasAead toy
toy_aead = record {
  xchacha_opens = toy_opens;
  xchacha_length = λ key nonce aad text. refl;
  xchacha_tag = λ key nonce aad text. refl;
  chacha_opens = toy_opens;
  chacha_length = λ key nonce aad text. refl;
  chacha_tag = λ key nonce aad text. refl;
}

abbrev pub manager : KeyManager
manager = record {
  master_key = replicate 32 9;
  current_key_version = 1;
  allow_previous_key_version = true;
}

abbrev pub config : FrameHandlerConfig
config = record {
  anti_replay_enabled = true;
  replay_window_size = 4;
  max_ct_len = 64;
  max_skew_ms = 0;
  allow_previous_key_version = true;
  enforce_reader_door_binding = true;
  key_derivation_mode = "direct";
  aad_mode = "none";
  pepper_mode = "static";
  cipher_mode = "xchacha20";
  nonce_mode = "random";
}

abbrev pub strict : FrameHandlerConfig
strict = record config { nonce_mode = "deterministic" }

-- Reader 1 may control every door; every card is of the staff, which may open door 2.
abbrev pub store : AccessStore
store = record {
  role_for_card_hmac = λ card_hmac. some (codes "staff");
  is_allowed = λ door_id role. door_id == 2;
  current_key_version_for_reader = λ reader_id. if reader_id == 1 then 1 else 0;
  is_reader_allowed_door = λ reader_id door_id. true;
}

-- Every text is an object whose card is the text itself and whose action is to open.
abbrev pub json : JsonLib (List ℕ)
json = record {
  parse = λ text. some text;
  is_object = λ v. true;
  member = λ v key. if bytes_eq key (codes "action") then some (codes "open") else some v;
  get_string = λ v. some v;
}

abbrev pub header : Header
header = record {
  reader_id = 1;
  door_id = 2;
  ts_unix_ms = 1000;
  seq = 5;
  key_version = 1;
  nonce = replicate 24 7;
}

pub header_fits : IsHeader header
header_fits = record {
  reader_fits = omega arith;
  door_fits = omega arith;
  ts_fits = omega arith;
  seq_fits = omega arith;
  key_fits = omega arith;
  nonce_fits = refl;
}

abbrev pub card : List ℕ
card = 65 ∷ 66 ∷ []

abbrev pub frame : Frame
frame = sealed toy toy_aead manager config (replicate 32 9) header card

abbrev pub bytes : List ℕ
bytes = serialize frame

pub frame_fits : IsFrame frame
unfolding seal_with_nonce cipher_of
frame_fits = record { header_fits = header_fits; tag_fits = refl }

-- The parser reads the frame back.
pub frame_parses : parse_frame bytes 64 ≡ ok frame
unfolding seal_with_nonce cipher_of
frame_parses = parse_frame-serialize frame 64 frame_fits (omega arith) (omega arith)

pub frame-IsAccepted : IsAccepted toy manager config store 7 [] frame card
unfolding bytes_eq derive_key key_version_ok contains reader_window new_window lookup is_too_old mem
    check_timestamp decrypt_frame open_with_nonce seal_with_nonce cipher_of
frame-IsAccepted = record {
  reader_known = refl;
  door_bound = refl;
  version_ok = refl;
  fresh = refl;
  authentic = (replicate 32 9, refl, refl);
  on_time = refl;
}
