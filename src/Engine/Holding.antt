-- ===== src/Engine/Holding.antt =====
-- The steps of `handleFrameBytes` around the policy keep whom the detector holds in quarantine.
use access_security_system_e.Common.{
  ℕ, ◌≡◌, refl, ap, ◌∙◌, Bool, true, false, Option, none, some, List, String, inl, inr, Bool-cases,
  Option-cases, ◌||◌,
}
use access_security_system_e.Common.Text.{str_eq}
use access_security_system_e.Protocol.Frame.{Header}
use access_security_system_e.Handler.{HandleResult}
use access_security_system_e.Detector.{
  Detector, AnomalyType, is_quarantined, report_replay, report_tag_failure,
}
use access_security_system_e.Detector.Reports.{
  Report, replay, bad_tag, success, report, config-report,
}
use access_security_system_e.Detector.Quarantine.{report_keeps}
use access_security_system_e.Engine.{
  DecisionResult, EngineState, denied, publish_decision_event, publish_anomaly_event,
  log_audit_event, answer_logged, active_detector, set_detector,
}
use access_security_system_e.Engine.Policy.{refuse}
use access_security_system_e.Engine.Decide.{
  refuse_quarantined, publish_anomaly, track_refusal, track_success,
}
use access_security_system_e.Engine.Grants.{in_quarantine}
use access_security_system_e.Engine.Watched.{
  detector-publish, detector-log_audit_event, answer_logged-kept, detector-refuse_quarantined,
  in_quarantine-detector, detector-publish_anomaly_event, in_quarantine-some, active_inv, gate_on,
}

abbrev pub Held : ℕ → EngineState → Type 0
Held r st = in_quarantine st r ≡ true

pub same-Held : (r : ℕ) (st st' : EngineState) → st'.detector ≡ st.detector → Held r st → Held r st'
same-Held r st st' e h = in_quarantine-detector st' st r e ∙ h

active-Held :
    (r : ℕ) (st : EngineState) (d : Detector)
    → active_detector st ≡ some d
    → Held r st
    → is_quarantined d r ≡ true
unfolding in_quarantine
active-Held r st d a h = rw (in_quarantine, a) at h

-- A report keeps whom the detector holds.
pub report-Held :
    (r : ℕ) (st : EngineState) (d : Detector) (x : Report)
    → active_detector st ≡ some d
    → Held r st
    → Held r (set_detector st (report d x))
report-Held r st d x a h =
    in_quarantine-some (set_detector st (report d x)) (report d x) r refl
      (ap (λ c. c.enabled) (config-report d x) ∙ active_inv st d a)
      (report_keeps d x r (active-Held r st d a h))

pub logged-Held :
    (r now : ℕ) (st : EngineState) (h : Header) (allow : Bool) (reason : String)
    (card_id action : List ℕ) (q : DecisionResult)
    → Held r st
    → Held r (answer_logged st (log_audit_event now st h allow reason card_id action) q).state
logged-Held r now st h allow reason card_id action q held =
    same-Held r st (answer_logged st (log_audit_event now st h allow reason card_id action) q).state
      (answer_logged-kept st.detector st (log_audit_event now st h allow reason card_id action) q
        refl (λ st' l. detector-log_audit_event now st st' h allow reason card_id action l))
      held

pub refuse-Held :
    (r now : ℕ) (st : EngineState) (h : Header) (reason : String) (card_id action : List ℕ)
    → Held r st
    → Held r (refuse now st h reason card_id action).state
unfolding refuse
refuse-Held r now st h reason card_id action held =
    logged-Held r now st h false reason card_id action (denied reason) held

pub refuse_quarantined-Held :
    (r now : ℕ) (st : EngineState) (fr : HandleResult)
    → Held r st
    → Held r (refuse_quarantined now st fr).state
refuse_quarantined-Held r now st fr held =
    same-Held r st (refuse_quarantined now st fr).state (detector-refuse_quarantined now st fr) held

pub anomaly-Held :
    (r now : ℕ) (st : EngineState) (reader_id : ℕ) (a : AnomalyType)
    → Held r st
    → Held r (publish_anomaly_event now st reader_id a)
anomaly-Held r now st reader_id a held =
    same-Held r st (publish_anomaly_event now st reader_id a)
      (detector-publish_anomaly_event now st reader_id a) held

publish_anomaly-Held :
    (r now : ℕ) (st : EngineState) (reader_id : ℕ) (o : Option AnomalyType)
    → Held r st
    → Held r (publish_anomaly now st reader_id o)
unfolding publish_anomaly
publish_anomaly-Held r now st reader_id none held = held
publish_anomaly-Held r now st reader_id (some a) held = anomaly-Held r now st reader_id a held

pub decision-Held :
    (r now : ℕ) (st : EngineState) (fr : HandleResult)
    → Held r st
    → Held r (publish_decision_event now st fr)
unfolding publish_decision_event
decision-Held r now st fr held = same-Held r st _ (detector-publish st _) held

pub track_refusal-Held :
    (r now : ℕ) (st : EngineState) (fr : HandleResult)
    → Held r st
    → Held r (track_refusal now st fr)
unfolding track_refusal report
track_refusal-Held r now st fr held =
    let id = fr.header.reader_id in
    elim (Option-cases (active_detector st)) [
      | inl e ↦ rw (track_refusal, e) held
      | inr (d, e) ↦
          let replayed =
            anomaly-Held r now (set_detector st (report_replay d id fr.header.seq now).0) id
              (report_replay d id fr.header.seq now).1
              (report-Held r st d (replay id fr.header.seq now) e held) in
          let failed =
            publish_anomaly-Held r now (set_detector st (report_tag_failure d id now).0) id
              (report_tag_failure d id now).1 (report-Held r st d (bad_tag id now) e held) in
          elim (Bool-cases (str_eq fr.reason "replay")) [
            | inl a ↦ rw (track_refusal, e, a) replayed
            | inr a ↦
                elim (Bool-cases (
                  str_eq fr.reason "mac_verification_failed"
                  || str_eq fr.reason "decrypt_failed")) [
                    | inl b ↦ rw (track_refusal, e, a, b) failed
                    | inr b ↦ rw (track_refusal, e, a, b) held
                  ]
          ]
    ]

pub track_success-Held :
    (r : ℕ) (st : EngineState) (fr : HandleResult) → Held r st → Held r (track_success st fr)
unfolding track_success report
track_success-Held r st fr held = elim (Option-cases (active_detector st)) [
  | inl e ↦ rw (track_success, e) held
  | inr (d, e) ↦
      rw (track_success, e) (report-Held r st d (success fr.header.reader_id fr.header.seq) e held)
]

pub reported :
    (st : EngineState) (d : Detector) (x : Report)
    → active_detector st ≡ some d
    → active_detector (set_detector st (report d x)) ≡ some (report d x)
unfolding active_detector
reported st d x a =
    gate_on (report d x) (report d x).config.enabled
      (ap (λ c. c.enabled) (config-report d x) ∙ active_inv st d a)
