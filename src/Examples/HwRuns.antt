-- ===== src/Examples/HwRuns.antt =====
-- A scan of the small system's card.
use access_security_system_e.Common.{
  ℕ, ◌≡◌, ◌↔◌, refl, Bool, true, Option, none, some, List, [], ◌∷◌, length, replicate, arith, ◌==◌,
  if◌then◌else◌,
}
use access_security_system_e.Common.Text.{codes}
use access_security_system_e.Common.Maps.{lookup}
use access_security_system_e.Common.Sets.{mem}
use access_security_system_e.Protocol.ReplayWindow.{new_window, is_too_old, contains}
use access_security_system_e.Handler.{handle, reader_window, check_timestamp}
use access_security_system_e.Handler.Accepted.{accepted}
use access_security_system_e.Handler.Sealed.{sealed}
use access_security_system_e.Engine.{EngineState, DecisionResult}
use access_security_system_e.Hex.{hex_to_bytes_loose}
use access_security_system_e.Hw.{
  HwUidRequest, HwLib, verify_hw_signature, build_payload_json, build_encrypted_frame_bytes,
}
use access_security_system_e.Hw.Signature.{signed, verify_hw_signature_iff}
use access_security_system_e.Hw.Frames.{IsScan, IsBuilt, header_of, handle-IsBuilt}
use access_security_system_e.Hw.Process.{read_decision, remote_loop, ask_remote}
use access_security_system_e.Hw.Remote.{HasDefault, IsReceived, ask_remote_grant}
use access_security_system_e.Examples.World.{toy, toy_hmac, toy_aead, manager, config, store, card}

abbrev first_text : List (List ℕ × List ℕ) → Option (List ℕ)
first_text [] = none
first_text (m ∷ ms) = some m.1

abbrev grant : DecisionResult
grant = record { allow = true; reason = "ok" }

-- A payload is the card itself; the second attempt at the decision service is answered.
abbrev hw : HwLib (List ℕ)
hw = record {
  contains = λ v key. true;
  at_string = λ v key. some v;
  at_u32 = λ v key. some 1;
  at_u64 = λ v key. some 5;
  value_string = λ v key default. some default;
  dump = first_text;
  parse = λ text. some text;
  value_bool = λ v key default. some true;
  value_text = λ v key default. some "ok";
  post = λ attempt body. if attempt == 1 then some (200, []) else none;
}

abbrev scan : HwUidRequest
scan = record { uid = card; reader_id = 1; door_id = 2; hw_seq = 5; action = codes "open" }

scan_fits : IsScan scan 1 7
scan_fits = record {
  reader_fits = omega arith;
  door_fits = omega arith;
  seq_fits = omega arith;
  version_fits = omega arith;
  ts_fits = omega arith;
}

abbrev random : List ℕ
random = replicate 24 7

abbrev idle : EngineState
idle = record { windows = []; detector = none; events = none; audit = none }

handle-IsBuilt_example :
    (bytes : List ℕ) × (build_encrypted_frame_bytes toy manager config hw random 1 2 5 1 7 card
        (codes "open")
      ≡ some bytes)
    × (b : IsBuilt toy toy_hmac toy_aead manager config hw random scan 1 7 card bytes) × ((handle
          toy manager config
          (some store)
          7
          []
          bytes).0
        ≡ accepted toy manager config
            (sealed toy toy_aead manager config b.key
              (header_of toy toy_hmac toy_aead manager config hw random scan 1 7 card bytes b)
              card)
            card)
unfolding build_payload_json reader_window lookup new_window contains is_too_old mem check_timestamp
handle-IsBuilt_example =
    handle-IsBuilt toy toy_hmac toy_aead manager config hw random scan store 7 7 [] card refl refl
      scan_fits (omega arith) (omega arith) refl refl refl refl

abbrev secret : List ℕ
secret = replicate 64 48

verify_hw_signature_iff_example :
    (verify_hw_signature toy true secret (codes "{}") secret ≡ none) ↔ (
      (◌≡◌ {A = Bool} true true)
      × (length (hex_to_bytes_loose secret) ≡ 32)
      × (hex_to_bytes_loose secret
          ≡ toy.hmac_sha256 (hex_to_bytes_loose secret) (signed (codes "{}"))))
verify_hw_signature_iff_example =
    verify_hw_signature_iff toy toy_hmac true secret (codes "{}") secret

hw-HasDefault : HasDefault hw
hw-HasDefault = record { value_missing = λ j key default b missing e. absurd (cc) }

ask_remote_grant_example : IsReceived hw hw-HasDefault [] grant
unfolding ask_remote remote_loop read_decision
ask_remote_grant_example = ask_remote_grant hw hw-HasDefault [] grant refl refl
