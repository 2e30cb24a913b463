-- ===== src/Engine/Decide.antt =====
-- access_decision/src/engine.cpp: `DecisionEngine::handleFrameBytes`.
use access_security_system_e.Common.{
  ℕ, ◌≡◌, ap, true, false, not, ◌||◌, Option, none, some, List, [], length, ltb, if◌then◌else◌,
}
use access_security_system_e.Common.Text.{str_eq}
use access_security_system_e.Crypto.{Sodium}
use access_security_system_e.Crypto.Aead.{nonce_len_for, generate}
use access_security_system_e.KeyManager.{KeyManager, derive_nonce_key}
use access_security_system_e.Handler.{
  AccessStore, FrameHandlerConfig, HandleResult, cipher_of, handle,
}
use access_security_system_e.Detector.{
  Detector, AnomalyType, nonce_mismatch, is_quarantined, report_seq, report_nonce_mismatch,
  report_replay, report_tag_failure, report_success, nonce_equal,
}
use access_security_system_e.Payload.{JsonLib, parse_access_request_json}
use access_security_system_e.Engine.{
  EngineState, Outcome, denied, log_audit_event, answer_logged, publish_frame_event,
  publish_decision_event, publish_anomaly_event, active_detector, set_detector, nonce_context,
}
use access_security_system_e.Engine.Policy.{refuse, check_access_policy}

-- The decision event that follows a logged refusal.
unfoldable pub publish_refusal : ℕ → HandleResult → Option EngineState → Option EngineState
publish_refusal now fr none = none
publish_refusal now fr (some st) = some (publish_decision_event now st fr)

-- The three ways out "quarantined" end alike.
unfoldable pub refuse_quarantined : ℕ → EngineState → HandleResult → Outcome
unfolding publish_refusal answer_logged
refuse_quarantined now st fr =
    answer_logged st
      (publish_refusal now fr (log_audit_event now st fr.header false "quarantined" [] []))
      (denied "quarantined")

-- publishAnomalyEvent for an anomaly, where there is one.
unfoldable pub publish_anomaly : ℕ → EngineState → ℕ → Option AnomalyType → EngineState
publish_anomaly now st reader_id none = st
publish_anomaly now st reader_id (some anomaly) = publish_anomaly_event now st reader_id anomaly

-- What the detector learns of a refused frame.
unfoldable pub track_refusal : ℕ → EngineState → HandleResult → EngineState
unfolding publish_anomaly
track_refusal now st fr = elim (active_detector st) [
  | none ↦ st
  | some d ↦
      (let reader_id = fr.header.reader_id in
        let (d1, anomaly) = report_replay d reader_id fr.header.seq now in
        let (d2, streak) = report_tag_failure d reader_id now in
        if str_eq fr.reason "replay"
        then publish_anomaly_event now (set_detector st d1) reader_id anomaly
        else if str_eq fr.reason "mac_verification_failed" || str_eq fr.reason "decrypt_failed"
        then publish_anomaly now (set_detector st d2) reader_id streak
        else st)
]

unfoldable pub track_success : EngineState → HandleResult → EngineState
track_success st fr = elim (active_detector st) [
  | none ↦ st
  | some d ↦ set_detector st (report_success d fr.header.reader_id fr.header.seq)
]

module _ {V : Type 0} (json : JsonLib V) (lib : Sodium) (m : KeyManager) (c : FrameHandlerConfig)
    (store : Option AccessStore) where
  -- After the success of the frame: the payload and the policy.
  unfoldable pub decide_payload : ℕ → EngineState → HandleResult → Outcome
  decide_payload now st fr = elim (parse_access_request_json json fr.plaintext) [
    | none ↦ refuse now st fr.header "bad_payload" [] []
    | some request ↦ check_access_policy lib m c store now st fr request
  ]

  -- After the detector's checks.
  unfoldable pub decide_frame : ℕ → EngineState → HandleResult → Outcome
  unfolding decide_payload track_refusal track_success
  decide_frame now st fr =
      let st1 = publish_decision_event now st fr in
      if not fr.allow
      then refuse now (track_refusal now st1 fr) fr.header fr.reason [] []
      else decide_payload now (track_success st1 fr) fr

  pub decide_frame_accepted :
      (now : ℕ) (st : EngineState) (fr : HandleResult)
      → fr.allow ≡ true
      → decide_frame now st fr
        ≡ decide_payload now (track_success (publish_decision_event now st fr) fr) fr
  unfolding decide_frame
  decide_frame_accepted now st fr e =
      let st1 = publish_decision_event now st fr in
      ap
        (λ b.
          if not b
          then refuse now (track_refusal now st1 fr) fr.header fr.reason [] []
          else decide_payload now (track_success st1 fr) fr)
        e

  pub decide_frame_refused :
      (now : ℕ) (st : EngineState) (fr : HandleResult)
      → fr.allow ≡ false
      → decide_frame now st fr
        ≡ refuse now
            (track_refusal now (publish_decision_event now st fr) fr)
            fr.header
            fr.reason
            []
            []
  unfolding decide_frame
  decide_frame_refused now st fr e =
      let st1 = publish_decision_event now st fr in
      ap
        (λ b.
          if not b
          then refuse now (track_refusal now st1 fr) fr.header fr.reason [] []
          else decide_payload now (track_success st1 fr) fr)
        e

  -- The check of the deterministic nonce.
  unfoldable pub check_nonce : ℕ → EngineState → Detector → HandleResult → Outcome
  unfolding decide_frame
  check_nonce now st d fr =
      if str_eq c.nonce_mode "deterministic"
      then (let reader_id = fr.header.reader_id in
          let mode = cipher_of c.cipher_mode in
          elim (derive_nonce_key lib m reader_id fr.header.key_version) [
            | none ↦ record { state = st; result = none }
            | some nonce_key ↦
                (let expected = generate lib mode nonce_key (nonce_context fr.header) in
                  let (d', anomaly) = report_nonce_mismatch d reader_id now in
                  if nonce_equal fr.header.nonce expected (nonce_len_for mode)
                  then decide_frame now st fr
                  else refuse_quarantined now
                      (publish_anomaly_event now (set_detector st d') reader_id nonce_mismatch) fr)
          ])
      else decide_frame now st fr

  -- The check of the sequence number: a header whose number is 0 is not checked.
  unfoldable pub check_seq : ℕ → EngineState → Detector → HandleResult → Outcome
  unfolding check_nonce
  check_seq now st d fr =
      let reader_id = fr.header.reader_id in
      let (d', anomaly) = report_seq d reader_id fr.header.seq now in
      if ltb 0 fr.header.seq
      then elim anomaly [
        | some a ↦
            refuse_quarantined now (publish_anomaly_event now (set_detector st d') reader_id a) fr
        | none ↦ check_nonce now (set_detector st d') d' fr
      ]
      else check_nonce now st d fr

  unfoldable pub check_detector : ℕ → EngineState → HandleResult → Outcome
  unfolding check_seq
  check_detector now st fr = elim (active_detector st) [
    | none ↦ decide_frame now st fr
    | some d ↦
        if is_quarantined d fr.header.reader_id
        then refuse_quarantined now st fr
        else check_seq now st d fr
  ]

  unfoldable pub handle_frame_bytes : ℕ → EngineState → List ℕ → Outcome
  unfolding check_detector
  handle_frame_bytes now st bytes =
      let (fr, ws) = handle lib m c store now st.windows bytes in
      check_detector now (publish_frame_event now (record st { windows = ws }) (length bytes)) fr
