-- ===== src/Engine/Lasting.antt =====
-- A quarantine through a history of calls of `handleFrameBytes`.
use mathlib.Core.Path.{subst}
use access_security_system_e.Common.{
  ℕ, ◌≡◌, ap, sym, ◌∙◌, true, Option, some, List, [], ◌∷◌, inl, inr, length, ltb, Bool-cases,
  Option-cases, bytes_eq, ◌==◌,
}
use access_security_system_e.Common.Text.{str_eq, codes}
use access_security_system_e.Crypto.{Sodium}
use access_security_system_e.Crypto.Aead.{nonce_len_for, generate}
use access_security_system_e.KeyManager.{KeyManager, derive_nonce_key}
use access_security_system_e.Handler.{
  AccessStore, FrameHandlerConfig, HandleResult, cipher_of, handle,
}
use access_security_system_e.Detector.{
  Detector, nonce_mismatch, is_quarantined, report_seq, report_nonce_mismatch, nonce_equal,
}
use access_security_system_e.Detector.Reports.{received, bad_nonce, report}
use access_security_system_e.Payload.{JsonLib, AccessRequest, parse_access_request_json}
use access_security_system_e.Engine.{
  DecisionResult, EngineState, denied, publish_frame_event, publish_decision_event,
  publish_anomaly_event, active_detector, set_detector, nonce_context,
}
use access_security_system_e.Engine.Policy.{
  Resolved, resolve_card_hmac, check_role_access, decide_role, check_store_policy,
  check_access_policy,
}
use access_security_system_e.Engine.Decide.{
  refuse_quarantined, track_refusal, track_success, decide_payload, decide_frame,
  decide_frame_accepted, decide_frame_refused, check_nonce, check_seq, check_detector,
  handle_frame_bytes,
}
use access_security_system_e.Engine.Permitted.{answer_logged_inv}
use access_security_system_e.Engine.Grants.{in_quarantine}
use access_security_system_e.Engine.Quarantine.{check_quarantined, start_detector}
use access_security_system_e.Engine.Holding.{
  Held, same-Held, refuse-Held, logged-Held, report-Held, refuse_quarantined-Held, anomaly-Held,
  decision-Held, track_refusal-Held, track_success-Held, reported,
}

module _ {V : Type 0} (json : JsonLib V) (lib : Sodium) (m : KeyManager) (c : FrameHandlerConfig)
    (store : Option AccessStore) where
  -- The engine's state after calls at these times with these buffers.
  unfoldable pub after_calls : EngineState → List (ℕ × List ℕ) → EngineState
  unfolding handle_frame_bytes
  after_calls st [] = st
  after_calls st ((now, bytes) ∷ calls) =
      after_calls (handle_frame_bytes json lib m c store now st bytes).state calls

module _ {V : Type 0} (json : JsonLib V) (lib : Sodium) (m : KeyManager) (c : FrameHandlerConfig)
    (store : Option AccessStore) (r : ℕ) where
  decide_role-Held :
      (s : AccessStore) (now : ℕ) (st : EngineState) (fr : HandleResult) (request : AccessRequest)
      (resolved : Resolved)
      → Held r st
      → Held r (decide_role lib m c now st s fr request resolved).state
  unfolding decide_role
  decide_role-Held s now st fr request resolved held = elim (Option-cases resolved.role) [
    | inl k ↦
        rw (decide_role, k)
          (refuse-Held r now st fr.header "unknown_card" resolved.card_hmac request.action held)
    | inr (role, k) ↦
        rw (decide_role, k)
          (let q = check_role_access s fr.header.door_id role in
            logged-Held r now st fr.header q.allow q.reason resolved.card_hmac request.action q
              held)
  ]

  check_store_policy-Held :
      (s : AccessStore) (now : ℕ) (st : EngineState) (fr : HandleResult) (request : AccessRequest)
      → Held r st
      → Held r (check_store_policy lib m c s now st fr request).state
  unfolding check_store_policy
  check_store_policy-Held s now st fr request held =
      let kv = s.current_key_version_for_reader fr.header.reader_id in
      elim (Bool-cases (kv == 0)) [
        | inl z ↦
            rw (check_store_policy, z) (refuse-Held r now st fr.header "unknown_reader" [] [] held)
        | inr z ↦ elim (Option-cases (resolve_card_hmac lib m c s request.card_id kv)) [
          | inl t ↦ rw (check_store_policy, z, t) held
          | inr (resolved, t) ↦
              rw (check_store_policy, z, t) (decide_role-Held s now st fr request resolved held)
        ]
      ]

  decide_payload-Held :
      (now : ℕ) (st : EngineState) (fr : HandleResult)
      → Held r st
      → Held r (decide_payload json lib m c store now st fr).state
  unfolding decide_payload check_access_policy
  decide_payload-Held now st fr held =
      elim (Option-cases (parse_access_request_json json fr.plaintext)) [
        | inl p ↦ rw (decide_payload, p) (refuse-Held r now st fr.header "bad_payload" [] [] held)
        | inr (request, p) ↦ elim (Bool-cases (bytes_eq request.action (codes "open"))) [
          | inr o ↦
              rw (decide_payload, p, check_access_policy, o)
                (refuse-Held r now st fr.header "bad_action" [] [] held)
          | inl o ↦ elim (Option-cases store) [
            | inl n ↦
                rw (decide_payload, p, check_access_policy, o, n)
                  (refuse-Held r now st fr.header "no_store" [] [] held)
            | inr (s, n) ↦
                rw (decide_payload, p, check_access_policy, o, n)
                  (check_store_policy-Held s now st fr request held)
          ]
        ]
      ]

  decide_frame-Held :
      (now : ℕ) (st : EngineState) (fr : HandleResult)
      → Held r st
      → Held r (decide_frame json lib m c store now st fr).state
  decide_frame-Held now st fr held =
      let st1 = publish_decision_event now st fr in
      let held1 = decision-Held r now st fr held in
      elim (Bool-cases fr.allow) [
        | inl accepted ↦
            subst (λ o. Held r o.state)
              (sym (decide_frame_accepted json lib m c store now st fr accepted))
              (decide_payload-Held now (track_success st1 fr) fr
                (track_success-Held r st1 fr held1))
        | inr refused ↦
            subst (λ o. Held r o.state)
              (sym (decide_frame_refused json lib m c store now st fr refused))
              (refuse-Held r now (track_refusal now st1 fr) fr.header fr.reason [] []
                (track_refusal-Held r now st1 fr held1))
      ]

  check_nonce-Held :
      (now : ℕ) (st : EngineState) (d : Detector) (fr : HandleResult)
      → active_detector st ≡ some d
      → Held r st
      → Held r (check_nonce json lib m c store now st d fr).state
  unfolding check_nonce report
  check_nonce-Held now st d fr a held =
      let id = fr.header.reader_id in
      let st1 = set_detector st (report_nonce_mismatch d id now).0 in
      elim (Bool-cases (str_eq c.nonce_mode "deterministic")) [
        | inr random ↦ rw (check_nonce, random) (decide_frame-Held now st fr held)
        | inl checked ↦
            let mode = cipher_of c.cipher_mode in
            elim (Option-cases (derive_nonce_key lib m id fr.header.key_version)) [
              | inl k ↦ rw (check_nonce, checked, k) held
              | inr (key, k) ↦
                  elim (Bool-cases (
                    nonce_equal fr.header.nonce (generate lib mode key (nonce_context fr.header))
                      (nonce_len_for mode))) [
                        | inl equal ↦
                            rw (check_nonce, checked, k, equal) (decide_frame-Held now st fr held)
                        | inr differs ↦
                            rw (check_nonce, checked, k, differs)
                              (refuse_quarantined-Held r now
                                (publish_anomaly_event now st1 id nonce_mismatch) fr
                                (anomaly-Held r now st1 id nonce_mismatch
                                  (report-Held r st d (bad_nonce id now) a held)))
                      ]
            ]
      ]

  check_seq-Held :
      (now : ℕ) (st : EngineState) (d : Detector) (fr : HandleResult)
      → active_detector st ≡ some d
      → Held r st
      → Held r (check_seq json lib m c store now st d fr).state
  unfolding check_seq report
  check_seq-Held now st d fr a held =
      let id = fr.header.reader_id in
      let out = report_seq d id fr.header.seq now in
      let x = received id fr.header.seq now in
      let held1 = report-Held r st d x a held in
      elim (Bool-cases (ltb 0 fr.header.seq)) [
        | inr zero ↦ rw (check_seq, zero) (check_nonce-Held now st d fr a held)
        | inl positive ↦ elim (Option-cases out.1) [
          | inl calm ↦
              rw (check_seq, positive, calm)
                (check_nonce-Held now (set_detector st out.0) out.0 fr (reported st d x a) held1)
          | inr (why, back) ↦
              rw (check_seq, positive, back)
                (refuse_quarantined-Held r now
                  (publish_anomaly_event now (set_detector st out.0) id why) fr
                  (anomaly-Held r now (set_detector st out.0) id why held1))
        ]
      ]

  step-Held :
      (now : ℕ) (st : EngineState) (bytes : List ℕ)
      → Held r st
      → Held r (handle_frame_bytes json lib m c store now st bytes).state
  unfolding handle_frame_bytes check_detector
  step-Held now st bytes held =
      let out = handle lib m c store now st.windows bytes in
      let st1 = publish_frame_event now (record st { windows = out.1 }) (length bytes) in
      let held1 =
        same-Held r st st1 (start_detector json lib m c store now st out.1 (length bytes)) held in
      elim (Option-cases (active_detector st1)) [
        | inl a ↦ rw (check_detector, a) (decide_frame-Held now st1 out.0 held1)
        | inr (d, a) ↦ elim (Bool-cases (is_quarantined d out.0.header.reader_id)) [
          | inl q ↦ rw (check_detector, a, q) (refuse_quarantined-Held r now st1 out.0 held1)
          | inr q ↦ rw (check_detector, a, q) (check_seq-Held now st1 d out.0 a held1)
        ]
      ]

  after_calls-Held :
      (st : EngineState) (calls : List (ℕ × List ℕ))
      → Held r st
      → Held r (after_calls json lib m c store st calls)
  unfolding after_calls
  after_calls-Held st [] held = held
  after_calls-Held st ((now, bytes) ∷ calls) held =
      after_calls-Held (handle_frame_bytes json lib m c store now st bytes).state calls
        (step-Held now st bytes held)

  -- A quarantine lasts. Once an enabled detector holds a reader, no buffers of any readers, at any
  -- times and in any order, let it go: after all of them it is still held, and whatever the next
  -- call answers to a buffer whose result of the handler names this reader is the refusal
  -- "quarantined".
  pub quarantine_lasts :
      (st : EngineState) (calls : List (ℕ × List ℕ)) (now : ℕ) (bytes : List ℕ) (x : DecisionResult)
      → in_quarantine st r ≡ true
      → let st' = after_calls json lib m c store st calls in
        (handle lib m c store now st'.windows bytes).0.header.reader_id ≡ r
        → (handle_frame_bytes json lib m c store now st' bytes).result ≡ some x
        → (in_quarantine st' r ≡ true) × (denied "quarantined" ≡ x)
  unfolding handle_frame_bytes refuse_quarantined
  quarantine_lasts st calls now bytes x h names answered =
      let st' = after_calls json lib m c store st calls in
      let kept = after_calls-Held st calls h in
      let out = handle lib m c store now st'.windows bytes in
      let st1 = publish_frame_event now (record st' { windows = out.1 }) (length bytes) in
      let held : in_quarantine st1 out.0.header.reader_id ≡ true =
        ap (in_quarantine st1) names
        ∙ same-Held r st' st1 (start_detector json lib m c store now st' out.1 (length bytes))
            kept in
      let e = check_quarantined json lib m c store now st1 out.0 held in
      (kept, answer_logged_inv _ _ _ x (sym (ap (λ o. o.result) e) ∙ answered))
