-- ===== src/Examples/EngineRuns.antt =====
-- The engine at the small system's frame.
use access_security_system_e.Common.{
  ℕ, ◌≡◌, refl, ap, true, false, none, some, List, [], ◌∷◌, replicate, bytes_eq,
}
use access_security_system_e.Common.Maps.{lookup}
use access_security_system_e.Protocol.Frame.{Frame, to_bytes}
use access_security_system_e.Protocol.Codec.{put_le32, put_le64}
use access_security_system_e.Protocol.Parser.{ok, parse_frame, ParseError, validate_min_size}
use access_security_system_e.Crypto.Hkdf.{
  derive, derive_loop, expand_block, extract, compute_block_count,
}
use access_security_system_e.Crypto.Aead.{generate, nonce_len_for}
use access_security_system_e.KeyManager.{derive_card_pepper, derive_nonce_key}
use access_security_system_e.CardId.{hmac_hex}
use access_security_system_e.Payload.{
  parse_access_request_json, request_of, non_empty, string_member,
}
use access_security_system_e.Detector.{
  DetectorConfig, is_quarantined, nonce_equal, fresh_reader, nonce_mismatch,
}
use access_security_system_e.Handler.{handle, cipher_of, make_error}
use access_security_system_e.Handler.Accepted.{IsAccepted, handle_accepts}
use access_security_system_e.Engine.{
  AuditLog, EngineState, DecisionResult, denied, active_detector, nonce_context,
  publish_frame_event, publish, log_audit_event, audit_append, answer_logged, publish_audit_event,
  publish_decision_event,
}
use access_security_system_e.Engine.Policy.{
  resolve_with, resolve_card_hmac, check_role_access, decide_role, check_store_policy,
  check_access_policy,
}
use access_security_system_e.Engine.Decide.{
  decide_payload, decide_frame, check_detector, handle_frame_bytes, refuse_quarantined,
  publish_refusal,
}
use access_security_system_e.Engine.Logging.{IsAnswered, Takes}
use access_security_system_e.Engine.Answers.{handle_frame_bytes_logged}
use access_security_system_e.Engine.Permitted.{IsPermitted}
use access_security_system_e.Engine.Grants.{in_quarantine, handle_frame_bytes_grant}
use access_security_system_e.Engine.Quarantine.{garbage_quarantines_reader_0}
use access_security_system_e.Engine.Lasting.{after_calls, quarantine_lasts}
use access_security_system_e.Handler.{AccessStore}
use access_security_system_e.Examples.World.{
  toy, toy_hmac, manager, config, strict, store, json, card, frame, bytes, frame_parses,
  frame-IsAccepted,
}

-- An empty log that takes every event.
abbrev empty_log : AuditLog
empty_log = record { entries = []; throws = λ entries e. false }

-- No detector and no bus.
abbrev idle : EngineState
idle = record { windows = []; detector = none; events = none; audit = some empty_log }

handle_frame_bytes_logged_example :
    IsAnswered empty_log
      (handle toy manager config (some store) 7 [] bytes).0.header
      (handle_frame_bytes json toy manager config (some store) 7 idle bytes)
handle_frame_bytes_logged_example =
    handle_frame_bytes_logged toy toy_hmac manager config json (some store) 7 idle bytes empty_log
      refl

abbrev grant : DecisionResult
grant = record { allow = true; reason = "ok" }

granted : (handle_frame_bytes json toy manager config (some store) 7 idle bytes).result ≡ some grant
unfolding handle_frame_bytes check_detector decide_frame decide_payload parse_access_request_json
    request_of non_empty string_member bytes_eq check_access_policy check_store_policy
    resolve_card_hmac resolve_with derive_card_pepper derive derive_loop expand_block extract
    compute_block_count put_le32 hmac_hex decide_role check_role_access active_detector
    publish_frame_event publish log_audit_event audit_append answer_logged publish_audit_event
    publish_decision_event
granted =
    ap
      (λ o.
        (check_detector json toy manager config (some store) 7
          (publish_frame_event 7 (record idle { windows = o.1 }) 0) o.0).result)
      (handle_accepts toy manager config store 7 [] bytes frame card frame_parses frame-IsAccepted)

handle_frame_bytes_grant_example :
    (s : AccessStore) × (f : Frame) × (plaintext : List ℕ) × (some store ≡ some s)
    × (parse_frame bytes 64 ≡ ok f)
    × IsAccepted toy manager config s 7 [] f plaintext
    × (in_quarantine idle f.header.reader_id ≡ false)
    × IsPermitted json toy manager config s f.header plaintext
handle_frame_bytes_grant_example =
    handle_frame_bytes_grant json toy manager config (some store) 7 idle bytes grant granted refl

abbrev detector_config : DetectorConfig
detector_config = record { enabled = true; rollback_threshold = 100; tag_fail_streak_limit = 5 }

-- Reader 0 is in quarantine.
abbrev held : EngineState
held = record idle {
  detector = some (record {
    config = detector_config;
    readers =
        (
          0,
          record fresh_reader {
            quarantine = some (record { ts_unix_ms = 3; reason = nonce_mismatch; detail = [] });
          },
        )
        ∷ [];
  });
}

abbrev earlier : List (ℕ × List ℕ)
earlier = (5, 1 ∷ 2 ∷ []) ∷ (6, []) ∷ []

quarantine_lasts_example :
    (in_quarantine (after_calls json toy manager strict (some store) held earlier) 0 ≡ true)
    × (denied "quarantined" ≡ denied "quarantined")
unfolding handle_frame_bytes handle parse_frame validate_min_size make_error in_quarantine
    active_detector is_quarantined lookup after_calls check_detector refuse_quarantined
    log_audit_event audit_append publish_refusal answer_logged publish_frame_event publish
    publish_audit_event publish_decision_event
quarantine_lasts_example =
    quarantine_lasts json toy manager strict (some store) 0 held earlier 7 [] (denied "quarantined")
      refl refl refl

abbrev watched : EngineState
watched = record idle { detector = some (record { config = detector_config; readers = [] }) }

garbage_quarantines_reader_0_example :
    ((handle_frame_bytes json toy manager strict (some store) 7 watched []).result
      ≡ some (denied "quarantined"))
    × (in_quarantine (handle_frame_bytes json toy manager strict (some store) 7 watched []).state 0
        ≡ true)
unfolding parse_frame validate_min_size active_detector is_quarantined lookup derive_nonce_key
    derive derive_loop expand_block extract compute_block_count put_le32 put_le64 nonce_equal
    bytes_eq generate nonce_len_for nonce_context to_bytes cipher_of Takes
garbage_quarantines_reader_0_example =
    garbage_quarantines_reader_0 json toy manager strict (some store) 7 watched
      (record { config = detector_config; readers = [] }) [] ParseError.too_small (replicate 32 107)
      (λ entries e. refl) refl refl refl refl refl refl
