-- ===== src/Engine/Watched.antt =====
-- What the engine's steps leave of its detector, and whom that holds in quarantine.
use access_security_system_e.Common.{
  ℕ, ◌≡◌, refl, ap, sym, ◌∙◌, Bool, Option, true, false, none, some, List, [], String, inl, inr,
  arith, if◌then◌else◌, Option-cases, some-inj,
}
use access_security_system_e.Protocol.Frame.{Header}
use access_security_system_e.Handler.{HandleResult}
use access_security_system_e.Detector.{
  Detector, AnomalyType, nonce_mismatch, is_quarantined, report_nonce_mismatch,
}
use access_security_system_e.EventBus.{Event}
use access_security_system_e.Engine.{
  EngineState, denied, publish, log_audit_event, publish_audit_event, answer_logged, DecisionResult,
  publish_decision_event, publish_anomaly_event, active_detector,
}
use access_security_system_e.Engine.Decide.{refuse_quarantined, publish_refusal}
use access_security_system_e.Common.{==_refl}
use access_security_system_e.Detector.{get_state, set_state, do_quarantine, has_value}
use access_security_system_e.Detector.Reports.{get_state-set_state, is_quarantined-get_state}
use access_security_system_e.Engine.Grants.{in_quarantine}

pub false-true : false ≡ true → ⊥
false-true e = cc

none-some' : {d : Detector} → none ≡ some d → ⊥
none-some' e = cc

pub detector-publish : (st : EngineState) (e : Event) → (publish st e).detector ≡ st.detector
unfolding publish
detector-publish st e = ground arith

pub detector-log_audit_event :
    (now : ℕ) (st st' : EngineState) (h : Header) (allow : Bool) (reason : String)
    (card_id action : List ℕ)
    → log_audit_event now st h allow reason card_id action ≡ some st'
    → st'.detector ≡ st.detector
unfolding log_audit_event publish_audit_event publish
detector-log_audit_event now st st' h allow reason card_id action l = ground arith

-- What is kept by a state that is logged is kept by the answer after it.
pub answer_logged-kept :
    (D : Option Detector) (st : EngineState) (logged : Option EngineState) (q : DecisionResult)
    → st.detector ≡ D
    → ((st' : EngineState) → logged ≡ some st' → st'.detector ≡ D)
    → (answer_logged st logged q).state.detector ≡ D
unfolding answer_logged
answer_logged-kept D st none q e f = e
answer_logged-kept D st (some st') q e f = f st' refl

detector-publish_refusal :
    (now : ℕ) (fr : HandleResult) (logged : Option EngineState) (st' : EngineState)
    → publish_refusal now fr logged ≡ some st'
    → (st1 : EngineState) × (logged ≡ some st1) × (st'.detector ≡ st1.detector)
unfolding publish_refusal publish_decision_event
detector-publish_refusal now fr none st' e = absurd (cc)
detector-publish_refusal now fr (some st1) st' e =
    (st1, refl, ap (λ s. s.detector) (sym (some-inj e)) ∙ detector-publish st1 _)

pub detector-refuse_quarantined :
    (now : ℕ) (st : EngineState) (fr : HandleResult)
    → (refuse_quarantined now st fr).state.detector ≡ st.detector
unfolding refuse_quarantined
detector-refuse_quarantined now st fr =
    answer_logged-kept st.detector st
      (publish_refusal now fr (log_audit_event now st fr.header false "quarantined" [] []))
      (denied "quarantined") refl
      (λ st' e.
        let (st1, l, d) = detector-publish_refusal now fr _ st' e in
        d ∙ detector-log_audit_event now st st1 fr.header false "quarantined" [] [] l)

pub active_detector-same :
    (st st' : EngineState) → st.detector ≡ st'.detector → active_detector st ≡ active_detector st'
unfolding active_detector
active_detector-same st st' e =
    ap (λ o. elim o [ none ↦ none | some d ↦ if d.config.enabled then some d else none ]) e

pub in_quarantine-detector :
    (st st' : EngineState) (reader_id : ℕ)
    → st.detector ≡ st'.detector
    → in_quarantine st reader_id ≡ in_quarantine st' reader_id
unfolding in_quarantine
in_quarantine-detector st st' reader_id e =
    ap (λ o. elim o [ none ↦ false | some d ↦ is_quarantined d reader_id ])
      (active_detector-same st st' e)

pub detector-publish_anomaly_event :
    (now : ℕ) (st : EngineState) (r : ℕ) (a : AnomalyType)
    → (publish_anomaly_event now st r a).detector ≡ st.detector
unfolding publish_anomaly_event
detector-publish_anomaly_event now st r a = detector-publish st _

pub gate_on : (d : Detector) (b : Bool) → b ≡ true → (if b then some d else none) ≡ some d
gate_on d b e = ap (λ x. if x then some d else none) e

gate_inv :
    (d0 d : Detector) (b : Bool)
    → d0.config.enabled ≡ b
    → (if b then some d0 else none) ≡ some d
    → d.config.enabled ≡ true
gate_inv d0 d true e h = ap (λ x. x.config.enabled) (sym (some-inj h)) ∙ e
gate_inv d0 d false e h = absurd (none-some' h)

pub in_quarantine-some :
    (st : EngineState) (d : Detector) (r : ℕ)
    → st.detector ≡ some d
    → d.config.enabled ≡ true
    → is_quarantined d r ≡ true
    → in_quarantine st r ≡ true
unfolding in_quarantine active_detector
in_quarantine-some st d r e on q =
    let active : active_detector st ≡ some d =
      rw (active_detector, e) (gate_on d d.config.enabled on) in
    rw (in_quarantine, active) q

pub active_inv :
    (st : EngineState) (d : Detector) → active_detector st ≡ some d → d.config.enabled ≡ true
unfolding active_detector
active_inv st d h = elim (Option-cases st.detector) [
  | inl e ↦ absurd (none-some' (rw (active_detector, e) at h))
  | inr (d0, e) ↦ gate_inv d0 d d0.config.enabled refl (rw (active_detector, e) at h)
]

pub mismatch_quarantines :
    (d : Detector) (r now : ℕ) → is_quarantined (report_nonce_mismatch d r now).0 r ≡ true
unfolding report_nonce_mismatch do_quarantine
mismatch_quarantines d r now =
    let s = do_quarantine (get_state d r) nonce_mismatch now [] in
    is_quarantined-get_state (set_state d r s) r
    ∙ ap (λ x. has_value x.quarantine)
        (get_state-set_state d r r s ∙ ap (λ b. if b then s else get_state d r) (==_refl r))

pub enabled-mismatch :
    (d : Detector) (r now : ℕ) → (report_nonce_mismatch d r now).0.config.enabled ≡ d.config.enabled
unfolding report_nonce_mismatch set_state
enabled-mismatch d r now = refl
