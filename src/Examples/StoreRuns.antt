-- ===== src/Examples/StoreRuns.antt =====
-- The store over four tables in memory.
use access_security_system_e.Common.{◌≡◌, refl, ap, length, false, none, some, [], ◌∷◌}
use access_security_system_e.Common.Text.{codes}
use access_security_system_e.Common.Rows.{find_row, remove_rows}
use access_security_system_e.Handler.{handle, handle_parsed, validate_reader, make_error}
use access_security_system_e.Engine.{
  log_audit_event, answer_logged, EngineState, DecisionResult, denied, publish, publish_frame_event,
  publish_decision_event, active_detector,
}
use access_security_system_e.Engine.Policy.{refuse}
use access_security_system_e.Engine.Decide.{handle_frame_bytes, check_detector, decide_frame}
use access_security_system_e.Store.{Tables, put_card, drop_reader, effect}
use access_security_system_e.Store.Operations.{run_command, delete_reader, as_store, key_version_of}
use access_security_system_e.Store.Refinement.{spec, IsSame, run_command_refines}
use access_security_system_e.Store.Revoked.{
  run_commands, all_leave_out, leaves_out, deleted_reader_refused,
}
use access_security_system_e.Examples.Memory.{memory, memory-HasEffect}
use access_security_system_e.Examples.World.{toy, manager, config, json, frame, bytes, frame_parses}

-- Reader 1 with the door 2.
abbrev one_reader : Tables
one_reader = record {
  cards = [];
  door_roles = [];
  readers = (record { reader_id = 1; current_key_version = 1 }) ∷ [];
  reader_doors = (record { reader_id = 1; door_id = 2 }) ∷ [];
}

abbrev no_reader : Tables
no_reader = record { cards = []; door_roles = []; readers = []; reader_doors = [] }

abbrev one_card : Tables
one_card = record no_reader {
  cards = (record { card_hmac = codes "ab"; role = codes "staff" }) ∷ [];
}

run_command_refines_example :
    IsSame (as_store memory no_reader) (spec (drop_reader 1) (as_store memory one_reader))
unfolding run_command effect delete_reader remove_rows
run_command_refines_example =
    run_command_refines memory memory-HasEffect (drop_reader 1) one_reader no_reader refl refl refl

abbrev idle : EngineState
idle = record { windows = []; detector = none; events = none; audit = none }

abbrev refused : DecisionResult
refused = denied "unknown_reader"

unknown :
    handle toy manager config (some (as_store memory one_card)) 7 [] bytes
    ≡ (make_error "unknown_reader" frame.header, [])
unfolding handle handle_parsed validate_reader as_store key_version_of find_row
unknown = rw (handle, frame_parses) refl

refused_here :
    (handle_frame_bytes json toy manager config
      (some (as_store memory one_card))
      7
      idle
      bytes).result
    ≡ some refused
unfolding handle_frame_bytes check_detector decide_frame publish_frame_event publish_decision_event
    publish active_detector make_error refuse log_audit_event answer_logged
refused_here =
    ap
      (λ o.
        (check_detector json toy manager config (some (as_store memory one_card)) 7
          (publish_frame_event 7 (record idle { windows = o.1 }) (length bytes)) o.0).result)
      unknown

deleted_reader_refused_example : refused.allow ≡ false
unfolding delete_reader run_commands run_command effect remove_rows all_leave_out leaves_out
deleted_reader_refused_example =
    deleted_reader_refused memory memory-HasEffect json toy manager config 1
      (put_card (codes "ab") (codes "staff") ∷ []) one_reader no_reader one_card refl refl refl 7
      idle bytes frame refused frame_parses refl refused_here
