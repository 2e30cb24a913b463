-- ===== src/Engine/Logging.antt =====
-- What a call appends to the audit log, and that no other step touches the log.
use mathlib.Core.Path.{subst}
use access_security_system_e.Common.{
  ℕ, ◌≡◌, refl, ◌∙◌, Bool, Option, none, some, List, [], ◌∷◌, ◌++◌, String, inl, inr, arith, ◌⊎◌,
  true, false, Bool-cases, Option-cases,
}
use access_security_system_e.Protocol.Frame.{Header}
use access_security_system_e.Handler.{HandleResult}
use access_security_system_e.Detector.{AnomalyType, report_replay, report_tag_failure}
use access_security_system_e.EventBus.{Event}
use access_security_system_e.Engine.{
  DecisionResult, AuditEvent, EngineState, Outcome, denied, publish, log_audit_event, audit_append,
  AuditLog, event_of, publish_audit_event, answer_logged, publish_frame_event,
  publish_decision_event, publish_anomaly_event, active_detector, set_detector,
}
use access_security_system_e.Engine.Policy.{refuse}
use access_security_system_e.Engine.Decide.{
  refuse_quarantined, publish_refusal, publish_anomaly, track_refusal, track_success,
}

-- The event is about the frame with this header.
pub record IsAbout (h : Header) (e : AuditEvent) : Type 0 where
  pub same_ts : e.ts_unix_ms ≡ h.ts_unix_ms
  pub same_reader : e.reader_id ≡ h.reader_id
  pub same_door : e.door_id ≡ h.door_id
  pub same_seq : e.seq ≡ h.seq

-- One event is due to `log`, which says of the frame what the answer is. Either the log takes it,
-- and the call answers; or `append` throws at it, and the exception leaves the call, with the log as
-- it was.
pub record IsAnswered (log : AuditLog) (h : Header) (out : Outcome) : Type 0 where
  pub answer : DecisionResult
  pub event : AuditEvent
  pub same_allow : event.allow ≡ answer.allow
  pub same_reason : event.reason ≡ answer.reason
  pub about : IsAbout h event
  pub ends :
      ((log.throws log.entries event ≡ false)
        × (out.result ≡ some answer)
        × (out.state.audit ≡ some (record log { entries = log.entries ++ event ∷ [] })))
      ⊎ ((log.throws log.entries event ≡ true) × (out.result ≡ none) × (out.state.audit ≡ some log))

pub audit-publish : (st : EngineState) (e : Event) → (publish st e).audit ≡ st.audit
unfolding publish
audit-publish st e = ground arith

audit-publish_audit_event :
    (now : ℕ) (st : EngineState) (h : Header) (allow : Bool) (reason : String)
    → (publish_audit_event now st h allow reason).audit ≡ st.audit
unfolding publish_audit_event
audit-publish_audit_event now st h allow reason = audit-publish st _

-- What logAuditEvent does with a log that takes the event, and with one that throws.
log_taken :
    (now : ℕ) (st : EngineState) (h : Header) (allow : Bool) (reason : String)
    (card_id action : List ℕ) (log : AuditLog)
    → st.audit ≡ some log
    → log.throws log.entries (event_of h allow reason card_id action) ≡ false
    → (st' : EngineState) × (log_audit_event now st h allow reason card_id action ≡ some st')
      × (st'.audit
          ≡ some
              (record log { entries = log.entries ++ event_of h allow reason card_id action ∷ [] }))
unfolding log_audit_event audit_append
log_taken now st h allow reason card_id action log e t =
    let log' = record log {
      entries = log.entries ++ event_of h allow reason card_id action ∷ [];
    } in
    (
      publish_audit_event now (record st { audit = some log' }) h allow reason,
      rw (log_audit_event, e, audit_append, t) refl,
      audit-publish_audit_event now (record st { audit = some log' }) h allow reason,
    )

log_thrown :
    (now : ℕ) (st : EngineState) (h : Header) (allow : Bool) (reason : String)
    (card_id action : List ℕ) (log : AuditLog)
    → st.audit ≡ some log
    → log.throws log.entries (event_of h allow reason card_id action) ≡ true
    → log_audit_event now st h allow reason card_id action ≡ none
unfolding log_audit_event audit_append
log_thrown now st h allow reason card_id action log e t =
    rw (log_audit_event, e, audit_append, t) refl

pub audit-publish_decision_event :
    (now : ℕ) (st : EngineState) (fr : HandleResult)
    → (publish_decision_event now st fr).audit ≡ st.audit
unfolding publish_decision_event
audit-publish_decision_event now st fr = audit-publish st _

pub audit-publish_frame_event :
    (now : ℕ) (st : EngineState) (n : ℕ) → (publish_frame_event now st n).audit ≡ st.audit
unfolding publish_frame_event
audit-publish_frame_event now st n = audit-publish st _

pub audit-publish_anomaly_event :
    (now : ℕ) (st : EngineState) (r : ℕ) (a : AnomalyType)
    → (publish_anomaly_event now st r a).audit ≡ st.audit
unfolding publish_anomaly_event
audit-publish_anomaly_event now st r a = audit-publish st _

pub audit-track_success :
    (st : EngineState) (fr : HandleResult) → (track_success st fr).audit ≡ st.audit
unfolding track_success
audit-track_success st fr = ground arith

audit-publish_anomaly :
    (now : ℕ) (st : EngineState) (r : ℕ) (a : Option AnomalyType)
    → (publish_anomaly now st r a).audit ≡ st.audit
unfolding publish_anomaly
audit-publish_anomaly now st r none = refl
audit-publish_anomaly now st r (some a) = audit-publish_anomaly_event now st r a

pub audit-track_refusal :
    (now : ℕ) (st : EngineState) (fr : HandleResult) → (track_refusal now st fr).audit ≡ st.audit
unfolding track_refusal
audit-track_refusal now st fr = elim (Option-cases (active_detector st)) [
  | inl e ↦ rw (track_refusal, e) refl
  | inr (d, e) ↦
      let r = fr.header.reader_id in
      let replay = report_replay d r fr.header.seq now in
      let failure = report_tag_failure d r now in
      rw (track_refusal, e)
        (ground (
          arith,
          audit-publish_anomaly_event now (set_detector st replay.0) r replay.1,
          audit-publish_anomaly now (set_detector st failure.0) r failure.1,
        ))
]

pub logged-IsAnswered :
    (now : ℕ) (st : EngineState) (h : Header) (result : DecisionResult) (card_id action : List ℕ)
    (log : AuditLog)
    → st.audit ≡ some log
    → IsAnswered log h (
        answer_logged st
          (log_audit_event now st h result.allow result.reason card_id action)
          result)
unfolding answer_logged
logged-IsAnswered now st h result card_id action log e = record {
  answer = result;
  event = event_of h result.allow result.reason card_id action;
  same_allow = refl;
  same_reason = refl;
  about = record { same_ts = refl; same_reader = refl; same_door = refl; same_seq = refl };
  ends =
      elim (Bool-cases
        (log.throws log.entries (event_of h result.allow result.reason card_id action))) [
          | inl t ↦
              (let l = log_thrown now st h result.allow result.reason card_id action log e t in
                inr (t, rw l refl, rw l e))
          | inr t ↦
              (let (st', l, a) =
                  log_taken now st h result.allow result.reason card_id action log e t in
                inl (t, rw l refl, rw l a))
        ];
}

pub refuse-IsAnswered :
    (now : ℕ) (st : EngineState) (h : Header) (reason : String) (card_id action : List ℕ)
    (log : AuditLog)
    → st.audit ≡ some log
    → IsAnswered log h (refuse now st h reason card_id action)
unfolding refuse
refuse-IsAnswered now st h reason card_id action log e =
    logged-IsAnswered now st h (denied reason) card_id action log e

pub refuse_quarantined-IsAnswered :
    (now : ℕ) (st : EngineState) (fr : HandleResult) (log : AuditLog)
    → st.audit ≡ some log
    → IsAnswered log fr.header (refuse_quarantined now st fr)
unfolding refuse_quarantined publish_refusal answer_logged
refuse_quarantined-IsAnswered now st fr log e = record {
  answer = denied "quarantined";
  event = event_of fr.header false "quarantined" [] [];
  same_allow = refl;
  same_reason = refl;
  about = record { same_ts = refl; same_reader = refl; same_door = refl; same_seq = refl };
  ends = elim (Bool-cases (log.throws log.entries (event_of fr.header false "quarantined" [] []))) [
    | inl t ↦
        (let l = log_thrown now st fr.header false "quarantined" [] [] log e t in
          inr (t, rw l refl, rw l e))
    | inr t ↦
        (let (st', l, a) = log_taken now st fr.header false "quarantined" [] [] log e t in
          inl (t, rw l refl, rw l (audit-publish_decision_event now st' fr ∙ a)))
  ];
}

-- A log that takes every event; no log is one.
unfoldable pub Takes : Option AuditLog → Type 0
Takes none = Unit
Takes (some log) = (entries : List AuditEvent) (e : AuditEvent) → log.throws entries e ≡ false

log-Takes :
    (now : ℕ) (st : EngineState) (h : Header) (allow : Bool) (reason : String)
    (card_id action : List ℕ)
    → Takes st.audit
    → (st' : EngineState) × (log_audit_event now st h allow reason card_id action ≡ some st')
unfolding log_audit_event Takes
log-Takes now st h allow reason card_id action t = elim (Option-cases st.audit) [
  | inl e ↦ (st, simp (log_audit_event, e))
  | inr (log, e) ↦
      (let (st', l, a) =
          log_taken now st h allow reason card_id action log e
            (subst Takes e t log.entries (event_of h allow reason card_id action)) in
        (st', l))
]

pub result-answer_logged :
    (now : ℕ) (st : EngineState) (h : Header) (allow : Bool) (reason : String)
    (card_id action : List ℕ) (r : DecisionResult)
    → Takes st.audit
    → (answer_logged st (log_audit_event now st h allow reason card_id action) r).result ≡ some r
unfolding answer_logged
result-answer_logged now st h allow reason card_id action r t =
    let (st', l) = log-Takes now st h allow reason card_id action t in rw l refl

pub result-refuse :
    (now : ℕ) (st : EngineState) (h : Header) (reason : String) (card_id action : List ℕ)
    → Takes st.audit
    → (refuse now st h reason card_id action).result ≡ some (denied reason)
unfolding refuse
result-refuse now st h reason card_id action t =
    result-answer_logged now st h false reason card_id action (denied reason) t

pub result-refuse_quarantined :
    (now : ℕ) (st : EngineState) (fr : HandleResult)
    → Takes st.audit
    → (refuse_quarantined now st fr).result ≡ some (denied "quarantined")
unfolding refuse_quarantined publish_refusal answer_logged
result-refuse_quarantined now st fr t =
    let (st', l) = log-Takes now st fr.header false "quarantined" [] [] t in rw l refl
