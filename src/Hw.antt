-- ===== src/Hw.antt =====
-- access_admin/include/access_admin/service/hw_service.hpp and access_admin/src/service/
-- hw_service.cpp: the endpoint of the hardware reader. It checks the request's signature, seals the
-- request in a frame as a reader with a key would, and asks the engine, here or over HTTP. The JSON
-- library and the HTTP client are parameters; random bytes and the clock's readings are arguments.
pub mod Process
pub mod Signature
pub mod Frames
pub mod Remote
pub mod Scan
use access_security_system_e.Common.{
  ℕ, ◌+◌, ◌-◌, ◌≡◌, Bool, true, false, not, ◌>>=◌, Option, none, some, List, [], ◌∷◌, ◌++◌, String,
  length, take, replicate, ltb, ◌==◌, if◌then◌else◌, bytes_eq,
}
use access_security_system_e.Common.Text.{str_eq, codes}
use access_security_system_e.Protocol.Frame.{Header, Frame, to_bytes, serialize}
use access_security_system_e.Crypto.{Sodium}
use access_security_system_e.Crypto.Aead.{CipherMode, nonce_len_for, seal_with_nonce, generate}
use access_security_system_e.KeyManager.{
  KeyManager, derive_aead_key, derive_nonce_key, master_as_aead_key,
}
use access_security_system_e.Handler.{AccessStore, FrameHandlerConfig, cipher_of}
use access_security_system_e.Payload.{JsonLib}
use access_security_system_e.Engine.{DecisionResult, EngineState, Outcome, publish}
use access_security_system_e.Engine.Decide.{handle_frame_bytes}
use access_security_system_e.Hex.{hex_to_bytes_loose}

pub record HwUidRequest : Type 0 where
  pub uid : List ℕ
  pub reader_id : ℕ
  pub door_id : ℕ
  pub hw_seq : ℕ
  pub action : List ℕ

-- The calls of the JSON library, on its value type, and of the HTTP client; `none` is an exception,
-- for `post` it is no response.
pub record HwLib (V : Type 0) : Type 0 where
  pub contains : V → List ℕ → Bool
  -- at(key).get<T>()
  pub at_string : V → List ℕ → Option (List ℕ)
  pub at_u32 : V → List ℕ → Option ℕ
  pub at_u64 : V → List ℕ → Option ℕ
  -- value(key, default) of a string
  pub value_string : V → List ℕ → List ℕ → Option (List ℕ)
  -- dump() of an object with these members
  pub dump : List (List ℕ × List ℕ) → Option (List ℕ)
  pub parse : List ℕ → Option V
  -- value(key, default) of a bool, and of a text
  pub value_bool : V → List ℕ → Bool → Option Bool
  pub value_text : V → List ℕ → String → Option String
  -- Post of an attempt: the status and the body
  pub post : ℕ → List ℕ → Option (ℕ × List ℕ)

-- parseHwUidRequest; `none` is false, for any exception.
unfoldable pub parse_hw_uid_request : {V : Type 0} → HwLib V → V → Option HwUidRequest
parse_hw_uid_request hw j = do
  uid ← hw.at_string j (if hw.contains j (codes "uid") then codes "uid" else codes "card_id")
  reader_id ← hw.at_u32 j (codes "reader_id")
  door_id ← hw.at_u32 j (codes "door_id")
  hw_seq ← hw.at_u64 j (codes "hw_seq")
  action ← hw.value_string j (codes "action") (codes "open")
  some (record {
    uid = uid;
    reader_id = reader_id;
    door_id = door_id;
    hw_seq = hw_seq;
    action = action;
  })

-- verifyHmac: sodium_memcmp of 32 bytes, which both have.
unfoldable pub verify_hmac : Sodium → List ℕ → List ℕ → List ℕ → Bool
unfolding bytes_eq
verify_hmac lib message key expected = bytes_eq (lib.hmac_sha256 key message) expected

-- verifyHwSignature; the result is the error, `none` is true. `ready` is whether sodium_init
-- succeeds.
unfoldable pub verify_hw_signature : Sodium → Bool → List ℕ → List ℕ → List ℕ → Option String
unfolding hex_to_bytes_loose verify_hmac
verify_hw_signature lib ready signature_hex body secret_hex =
    let key = hex_to_bytes_loose secret_hex in
    let sig = hex_to_bytes_loose signature_hex in
    if length secret_hex == 0
    then some "misconfigured"
    else if not ready
    then some "sodium_init_failed"
    else if length signature_hex == 0
    then some "missing_signature"
    else if not (length key == 32)
    then some "bad_hw_secret_len"
    else if not (length sig == 32)
    then some "bad_signature_len"
    else if not (verify_hmac lib (codes "POST /api/hw/uid\n" ++ body) key sig)
    then some "bad_signature"
    else none

-- RandomNonceGenerator::generate, of the given random bytes.
unfoldable pub random_nonce : CipherMode → List ℕ → List ℕ
unfolding nonce_len_for
random_nonce mode random = let n = nonce_len_for mode in take n random ++ replicate (24 - n) 0

abbrev pub build_packet_header : ℕ → ℕ → ℕ → ℕ → ℕ → List ℕ → Header
build_packet_header reader_id door_id seq key_version ts nonce = record {
  reader_id = reader_id;
  door_id = door_id;
  ts_unix_ms = ts;
  seq = seq;
  key_version = key_version;
  nonce = nonce;
}

unfoldable pub build_nonce_context : ℕ → ℕ → ℕ → ℕ → ℕ → List ℕ
unfolding to_bytes
build_nonce_context reader_id door_id ts seq key_version =
    to_bytes (build_packet_header reader_id door_id seq key_version ts (replicate 24 0))

unfoldable pub build_payload_json : {V : Type 0} → HwLib V → List ℕ → List ℕ → Option (List ℕ)
build_payload_json hw uid action =
    hw.dump ((codes "card_id", uid) ∷ ((codes "action", action) ∷ []))

module _ (lib : Sodium) (m : KeyManager) (c : FrameHandlerConfig) where
  -- createNonceGenerator and its generate
  unfoldable pub create_nonce : List ℕ → ℕ → ℕ → List ℕ → Option (List ℕ)
  unfolding random_nonce
  create_nonce random reader_id key_version context =
      let mode = cipher_of c.cipher_mode in
      if str_eq c.nonce_mode "random" then some (random_nonce mode random) else do
        nonce_key ← derive_nonce_key lib m reader_id key_version
        some (generate lib mode nonce_key context)

  unfoldable pub frame_key : ℕ → ℕ → Option (List ℕ)
  frame_key reader_id key_version =
      if str_eq c.key_derivation_mode "direct"
      then some (master_as_aead_key m)
      else derive_aead_key lib m reader_id key_version

  unfoldable pub encrypt_and_serialize : List ℕ → Header → List ℕ → List ℕ → List ℕ
  encrypt_and_serialize key header payload nonce =
      let aad = if str_eq c.aad_mode "none" then [] else to_bytes header in
      let out = seal_with_nonce lib (cipher_of c.cipher_mode) key payload aad nonce in
      serialize (record { header = header; ct = out.ct; tag = out.tag })

  module _ {V : Type 0} (hw : HwLib V) where
    -- buildEncryptedFrameBytes; `none` is an exception of the JSON library or the key manager.
    unfoldable pub build_encrypted_frame_bytes :
        List ℕ → ℕ → ℕ → ℕ → ℕ → ℕ → List ℕ → List ℕ → Option (List ℕ)
    unfolding build_payload_json frame_key build_nonce_context create_nonce encrypt_and_serialize
    build_encrypted_frame_bytes random reader_id door_id seq key_version ts uid action = do
      payload ← build_payload_json hw uid action
      key ← frame_key reader_id key_version
      nonce ←
          create_nonce random reader_id key_version
            (build_nonce_context reader_id door_id ts seq key_version)
      some (
          encrypt_and_serialize key (build_packet_header reader_id door_id seq key_version ts nonce)
            payload nonce)
