-- ===== src/Engine/Answers.antt =====
-- access_decision/src/engine.cpp: a call of `handleFrameBytes` and the audit log.
use mathlib.Core.Path.{subst}
use access_security_system_e.Common.{
  ℕ, ◌≡◌, sym, ◌∙◌, Option, some, List, [], ◌∷◌, inl, inr, length, ltb, ◌==◌, Bool-cases,
  Option-cases, bytes_eq,
}
use access_security_system_e.Common.Text.{str_eq, codes}
use access_security_system_e.Crypto.{Sodium, HasHmacLength}
use access_security_system_e.Crypto.Aead.{nonce_len_for, generate}
use access_security_system_e.KeyManager.{KeyManager, derive_nonce_key_total}
use access_security_system_e.Handler.{
  AccessStore, FrameHandlerConfig, HandleResult, cipher_of, handle,
}
use access_security_system_e.Detector.{
  Detector, nonce_mismatch, is_quarantined, report_seq, report_nonce_mismatch, nonce_equal,
}
use access_security_system_e.Payload.{JsonLib, AccessRequest, parse_access_request_json}
use access_security_system_e.Engine.{
  AuditLog, EngineState, publish_frame_event, publish_decision_event, publish_anomaly_event,
  active_detector, set_detector, nonce_context,
}
use access_security_system_e.Engine.Policy.{
  Resolved, check_role_access, decide_role, check_store_policy, check_access_policy,
}
use access_security_system_e.Engine.Decide.{
  track_refusal, track_success, decide_payload, decide_frame, decide_frame_accepted,
  decide_frame_refused, check_nonce, check_seq, check_detector, handle_frame_bytes,
}
use access_security_system_e.Engine.Resolve.{card_id_given, resolve_card_hmac_total}
use access_security_system_e.Engine.Logging.{
  IsAnswered, audit-publish_frame_event, audit-publish_decision_event, audit-publish_anomaly_event,
  audit-track_success, audit-track_refusal, logged-IsAnswered, refuse-IsAnswered,
  refuse_quarantined-IsAnswered,
}

module _ (lib : Sodium) (law : HasHmacLength lib) (m : KeyManager) (c : FrameHandlerConfig) where
  decide_role-IsAnswered :
      (now : ℕ) (st : EngineState) (store : AccessStore) (fr : HandleResult)
      (request : AccessRequest) (r : Resolved) (log : AuditLog)
      → st.audit ≡ some log
      → IsAnswered log fr.header (decide_role lib m c now st store fr request r)
  unfolding decide_role
  decide_role-IsAnswered now st store fr request r log e = elim (Option-cases r.role) [
    | inl k ↦
        rw (decide_role, k)
          (refuse-IsAnswered now st fr.header "unknown_card" r.card_hmac request.action log e)
    | inr (role, k) ↦
        rw (decide_role, k)
          (logged-IsAnswered now st fr.header (check_role_access store fr.header.door_id role)
            r.card_hmac request.action log e)
  ]

  check_store_policy-IsAnswered :
      (store : AccessStore) (now : ℕ) (st : EngineState) (fr : HandleResult)
      (request : AccessRequest) (b : ℕ) (rest : List ℕ) (log : AuditLog)
      → request.card_id ≡ b ∷ rest
      → st.audit ≡ some log
      → IsAnswered log fr.header (check_store_policy lib m c store now st fr request)
  unfolding check_store_policy
  check_store_policy-IsAnswered store now st fr request b rest log card e =
      let kv = store.current_key_version_for_reader fr.header.reader_id in
      elim (Bool-cases (kv == 0)) [
        | inl z ↦
            rw (check_store_policy, z)
              (refuse-IsAnswered now st fr.header "unknown_reader" [] [] log e)
        | inr z ↦
            let (r, s) =
              resolve_card_hmac_total lib law m c store request.card_id kv b rest card z in
            rw (check_store_policy, z, s) (decide_role-IsAnswered now st store fr request r log e)
      ]

  check_access_policy-IsAnswered :
      (store : Option AccessStore) (now : ℕ) (st : EngineState) (fr : HandleResult)
      (request : AccessRequest) (b : ℕ) (rest : List ℕ) (log : AuditLog)
      → request.card_id ≡ b ∷ rest
      → st.audit ≡ some log
      → IsAnswered log fr.header (check_access_policy lib m c store now st fr request)
  unfolding check_access_policy
  check_access_policy-IsAnswered store now st fr request b rest log card e =
      elim (Bool-cases (bytes_eq request.action (codes "open"))) [
        | inr other ↦
            rw (check_access_policy, other)
              (refuse-IsAnswered now st fr.header "bad_action" [] [] log e)
        | inl opens ↦ elim (Option-cases store) [
          | inl n ↦
              rw (check_access_policy, opens, n)
                (refuse-IsAnswered now st fr.header "no_store" [] [] log e)
          | inr (s, n) ↦
              rw (check_access_policy, opens, n)
                (check_store_policy-IsAnswered s now st fr request b rest log card e)
        ]
      ]

  module _ {V : Type 0} (json : JsonLib V) (store : Option AccessStore) where
    decide_payload-IsAnswered :
        (now : ℕ) (st : EngineState) (fr : HandleResult) (log : AuditLog)
        → st.audit ≡ some log
        → IsAnswered log fr.header (decide_payload json lib m c store now st fr)
    unfolding decide_payload
    decide_payload-IsAnswered now st fr log e =
        elim (Option-cases (parse_access_request_json json fr.plaintext)) [
          | inl p ↦
              rw (decide_payload, p) (refuse-IsAnswered now st fr.header "bad_payload" [] [] log e)
          | inr (request, p) ↦
              let (b, rest, card) = card_id_given json fr.plaintext request p in
              rw (decide_payload, p)
                (check_access_policy-IsAnswered store now st fr request b rest log card e)
        ]

    decide_frame-IsAnswered :
        (now : ℕ) (st : EngineState) (fr : HandleResult) (log : AuditLog)
        → st.audit ≡ some log
        → IsAnswered log fr.header (decide_frame json lib m c store now st fr)
    unfolding decide_frame
    decide_frame-IsAnswered now st fr log e =
        let st1 = publish_decision_event now st fr in
        let e1 : st1.audit ≡ some log = audit-publish_decision_event now st fr ∙ e in
        elim (Bool-cases fr.allow) [
          | inl accepted ↦
              subst (IsAnswered log fr.header)
                (sym (decide_frame_accepted json lib m c store now st fr accepted))
                (decide_payload-IsAnswered now (track_success st1 fr) fr log
                  (audit-track_success st1 fr ∙ e1))
          | inr refused ↦
              subst (IsAnswered log fr.header)
                (sym (decide_frame_refused json lib m c store now st fr refused))
                (refuse-IsAnswered now (track_refusal now st1 fr) fr.header fr.reason [] [] log
                  (audit-track_refusal now st1 fr ∙ e1))
        ]

    check_nonce-IsAnswered :
        (now : ℕ) (st : EngineState) (d : Detector) (fr : HandleResult) (log : AuditLog)
        → st.audit ≡ some log
        → IsAnswered log fr.header (check_nonce json lib m c store now st d fr)
    unfolding check_nonce
    check_nonce-IsAnswered now st d fr log e =
        let r = fr.header.reader_id in
        let d' = (report_nonce_mismatch d r now).0 in
        elim (Bool-cases (str_eq c.nonce_mode "deterministic")) [
          | inr random ↦ rw (check_nonce, random) (decide_frame-IsAnswered now st fr log e)
          | inl checked ↦
              let mode = cipher_of c.cipher_mode in
              let (key, k, n) = derive_nonce_key_total lib law m r fr.header.key_version in
              elim (Bool-cases (
                nonce_equal fr.header.nonce (generate lib mode key (nonce_context fr.header))
                  (nonce_len_for mode))) [
                    | inl equal ↦
                        rw (check_nonce, checked, k, equal)
                          (decide_frame-IsAnswered now st fr log e)
                    | inr differs ↦
                        rw (check_nonce, checked, k, differs)
                          (refuse_quarantined-IsAnswered now
                            (publish_anomaly_event now (set_detector st d') r nonce_mismatch) fr log
                            (audit-publish_anomaly_event now (set_detector st d') r nonce_mismatch
                              ∙ e))
                  ]
        ]

    check_seq-IsAnswered :
        (now : ℕ) (st : EngineState) (d : Detector) (fr : HandleResult) (log : AuditLog)
        → st.audit ≡ some log
        → IsAnswered log fr.header (check_seq json lib m c store now st d fr)
    unfolding check_seq
    check_seq-IsAnswered now st d fr log e =
        let r = fr.header.reader_id in
        let d' = (report_seq d r fr.header.seq now).0 in
        elim (Bool-cases (ltb 0 fr.header.seq)) [
          | inr zero ↦ rw (check_seq, zero) (check_nonce-IsAnswered now st d fr log e)
          | inl some_number ↦ elim (Option-cases (report_seq d r fr.header.seq now).1) [
            | inl ok' ↦
                rw (check_seq, some_number, ok')
                  (check_nonce-IsAnswered now (set_detector st d') d' fr log e)
            | inr (a, back) ↦
                rw (check_seq, some_number, back)
                  (refuse_quarantined-IsAnswered now
                    (publish_anomaly_event now (set_detector st d') r a) fr log
                    (audit-publish_anomaly_event now (set_detector st d') r a ∙ e))
          ]
        ]

    check_detector-IsAnswered :
        (now : ℕ) (st : EngineState) (fr : HandleResult) (log : AuditLog)
        → st.audit ≡ some log
        → IsAnswered log fr.header (check_detector json lib m c store now st fr)
    unfolding check_detector
    check_detector-IsAnswered now st fr log e = elim (Option-cases (active_detector st)) [
      | inl a ↦ rw (check_detector, a) (decide_frame-IsAnswered now st fr log e)
      | inr (d, a) ↦ elim (Bool-cases (is_quarantined d fr.header.reader_id)) [
        | inl q ↦ rw (check_detector, a, q) (refuse_quarantined-IsAnswered now st fr log e)
        | inr q ↦ rw (check_detector, a, q) (check_seq-IsAnswered now st d fr log e)
      ]
    ]

    -- Where an HMAC has 32 bytes, the store's lookups return and there is an audit log: every call
    -- has exactly one event due, which carries the answer's verdict and reason and the frame's
    -- time, reader, door and number. Either the log takes the event, grows by it and nothing else,
    -- and the call returns the answer; or the log's `append` throws at the event, and then the
    -- exception leaves the call, which answers nothing, with the log as it was.
    pub handle_frame_bytes_logged :
        (now : ℕ) (st : EngineState) (bytes : List ℕ) (log : AuditLog)
        → st.audit ≡ some log
        → IsAnswered log
            (handle lib m c store now st.windows bytes).0.header
            (handle_frame_bytes json lib m c store now st bytes)
    unfolding handle_frame_bytes
    handle_frame_bytes_logged now st bytes log e =
        let out = handle lib m c store now st.windows bytes in
        let st1 : EngineState = record st { windows = out.1 } in
        check_detector-IsAnswered now (publish_frame_event now st1 (length bytes)) out.0 log
          (audit-publish_frame_event now st1 (length bytes) ∙ e)
