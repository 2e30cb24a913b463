-- ===== src/Engine.antt =====
-- access_decision: engine.hpp, engine.cpp and audit.hpp. One call of handleFrameBytes is one step
-- from the state it shares (replay windows, anomaly detector, event bus, audit log) to the next.
-- `none` for the detector, the bus or the log is a null pointer. The clock is read once in a call:
-- `now` is an argument.
pub mod Policy
pub mod Decide
pub mod Resolve
pub mod Logging
pub mod Answers
pub mod Permitted
pub mod Grants
pub mod Watched
pub mod Quarantine
pub mod Holding
pub mod Lasting
pub mod Accepted
use access_security_system_e.Common.{
  ℕ, zero, suc, ◌+◌, ◌-◌, ◌≡◌, refl, Bool, true, false, not, ◌&&◌, ◌||◌, Option, none, some, List,
  [], ◌∷◌, ◌++◌, String, ◌⊎◌, inl, inr, arith, length, replicate, ltb, ◌==◌, if◌then◌else◌,
  bytes_eq,
}
use access_security_system_e.Common.Text.{str_eq, codes}
use access_security_system_e.Common.Decimal.{to_string}
use access_security_system_e.Protocol.Frame.{Header, to_bytes}
use access_security_system_e.Crypto.{Sodium}
use access_security_system_e.Crypto.Aead.{nonce_len_for, generate}
use access_security_system_e.KeyManager.{KeyManager, derive_card_pepper, derive_nonce_key}
use access_security_system_e.Handler.{
  AccessStore, FrameHandlerConfig, HandleResult, Windows, cipher_of, handle,
}
use access_security_system_e.Detector.{
  Detector, AnomalyType, anomaly_type_to_string, nonce_mismatch, is_quarantined, report_seq,
  report_nonce_mismatch, report_replay, report_tag_failure, report_success, nonce_equal,
}
use access_security_system_e.EventBus.{Event, EventBus, push}
use access_security_system_e.CardId.{hmac_hex}
use access_security_system_e.Payload.{JsonLib, AccessRequest, parse_access_request_json}

pub record DecisionResult : Type 0 where
  pub allow : Bool
  pub reason : String

pub record AuditEvent : Type 0 where
  pub ts_unix_ms : ℕ
  pub reader_id : ℕ
  pub door_id : ℕ
  pub seq : ℕ
  pub allow : Bool
  pub reason : String
  pub card_id : List ℕ
  pub action : List ℕ

-- The IAuditLog that the engine appends to: the events that it has taken, and whether its `append`
-- throws at an event. SqliteAuditLog throws where a statement fails, and rolls back.
pub record AuditLog : Type 0 where
  pub entries : List AuditEvent
  pub throws : List AuditEvent → AuditEvent → Bool

-- What the engine's pointers reach.
pub record EngineState : Type 0 where
  pub windows : Windows
  pub detector : Option Detector
  pub events : Option EventBus
  pub audit : Option AuditLog

-- A call's result; `none` is an exception that leaves the engine.
pub record Outcome : Type 0 where
  pub state : EngineState
  pub result : Option DecisionResult

unfoldable pub publish : EngineState → Event → EngineState
publish st e = elim (st.events) [ none ↦ st | some b ↦ record st { events = some (push b e).0 } ]

unfoldable pub verdict_text : Bool → List ℕ
verdict_text allow = codes (if allow then "ALLOW " else "DENY ")

-- IAuditLog::append; `none` is its exception.
unfoldable pub audit_append : AuditLog → AuditEvent → Option AuditLog
audit_append log e =
    if log.throws log.entries e then none else some (record log { entries = log.entries ++ e ∷ [] })

-- The event that logAuditEvent appends.
abbrev pub event_of : Header → Bool → String → List ℕ → List ℕ → AuditEvent
event_of h allow reason card_id action = record {
  ts_unix_ms = h.ts_unix_ms;
  reader_id = h.reader_id;
  door_id = h.door_id;
  seq = h.seq;
  allow = allow;
  reason = reason;
  card_id = card_id;
  action = action;
}

-- The runtime event that follows an append.
unfoldable pub publish_audit_event : ℕ → EngineState → Header → Bool → String → EngineState
unfolding publish verdict_text
publish_audit_event now st h allow reason = publish st (record {
  id = 0;
  ts_unix_ms = now;
  kind = "audit";
  message = codes "audit append: " ++ (verdict_text allow ++ codes reason);
  reader_id = h.reader_id;
  door_id = h.door_id;
  seq = h.seq;
  allow = allow;
  reason = reason;
})

-- logAuditEvent: without a log there is no event either; `none` is the exception of `append`.
unfoldable pub log_audit_event :
    ℕ → EngineState → Header → Bool → String → List ℕ → List ℕ → Option EngineState
unfolding publish_audit_event audit_append
log_audit_event now st h allow reason card_id action = elim (st.audit) [
  | none ↦ some st
  | some log ↦ elim (audit_append log (event_of h allow reason card_id action)) [
    | none ↦ none
    | some log' ↦ some (publish_audit_event now (record st { audit = some log' }) h allow reason)
  ]
]

-- The answer after an event was logged; the exception of `append` leaves the engine.
unfoldable pub answer_logged : EngineState → Option EngineState → DecisionResult → Outcome
answer_logged st none r = record { state = st; result = none }
answer_logged st (some st') r = record { state = st'; result = some r }

unfoldable pub publish_frame_event : ℕ → EngineState → ℕ → EngineState
unfolding publish
publish_frame_event now st frame_size = publish st (record {
  id = 0;
  ts_unix_ms = now;
  kind = "frame";
  message = codes "frame received, bytes=" ++ to_string frame_size;
  reader_id = 0;
  door_id = 0;
  seq = 0;
  allow = false;
  reason = "";
})

unfoldable pub publish_decision_event : ℕ → EngineState → HandleResult → EngineState
unfolding publish verdict_text
publish_decision_event now st fr = publish st (record {
  id = 0;
  ts_unix_ms = now;
  kind = "decision";
  message = codes "frame handler: " ++ (verdict_text fr.allow ++ codes fr.reason);
  reader_id = fr.header.reader_id;
  door_id = fr.header.door_id;
  seq = fr.header.seq;
  allow = fr.allow;
  reason = fr.reason;
})

-- publishAnomalyEvent; its detail is empty at every call.
unfoldable pub publish_anomaly_event : ℕ → EngineState → ℕ → AnomalyType → EngineState
unfolding publish
publish_anomaly_event now st reader_id anomaly = publish st (record {
  id = 0;
  ts_unix_ms = now;
  kind = "anomaly";
  message = codes "anomaly: " ++ codes (anomaly_type_to_string anomaly);
  reader_id = reader_id;
  door_id = 0;
  seq = 0;
  allow = false;
  reason = anomaly_type_to_string anomaly;
})

abbrev pub denied : String → DecisionResult
denied reason = record { allow = false; reason = reason }

-- detectorActive
unfoldable pub active_detector : EngineState → Option Detector
active_detector st = elim (st.detector) [
  | none ↦ none
  | some d ↦ if d.config.enabled then some d else none
]

abbrev pub set_detector : EngineState → Detector → EngineState
set_detector st d = record st { detector = some d }

-- The header as the nonce's context: its nonce is zero.
unfoldable pub nonce_context : Header → List ℕ
nonce_context h = to_bytes (record h { nonce = replicate 24 0 })
