-- ===== src/Engine/Grants.antt =====
-- What a granted access means.
use mathlib.Core.Path.{subst}
use access_security_system_e.Common.{
  ℕ, ◌≡◌, refl, ap, sym, ◌∙◌, Bool, true, false, Option, none, some, List, inl, inr, arith, length,
  ltb, Bool-cases, Option-cases,
}
use access_security_system_e.Common.Text.{str_eq}
use access_security_system_e.Crypto.{Sodium}
use access_security_system_e.Crypto.Aead.{nonce_len_for, generate}
use access_security_system_e.KeyManager.{KeyManager}
use access_security_system_e.Handler.{
  AccessStore, FrameHandlerConfig, HandleResult, Windows, cipher_of, handle,
}
use access_security_system_e.Detector.{Detector, is_quarantined, report_seq, nonce_equal}
use access_security_system_e.Payload.{JsonLib}
use access_security_system_e.Engine.{
  DecisionResult, EngineState, publish, publish_frame_event, publish_decision_event,
  active_detector, set_detector, nonce_context,
}
use access_security_system_e.Engine.Policy.{refuse}
use access_security_system_e.Engine.Decide.{
  refuse_quarantined, track_success, decide_frame, decide_frame_accepted, decide_frame_refused,
  check_nonce, check_seq, check_detector, handle_frame_bytes,
}
use access_security_system_e.Protocol.Frame.{Frame}
use access_security_system_e.Protocol.Parser.{ok, parse_frame}
use access_security_system_e.KeyManager.{derive_nonce_key}
use access_security_system_e.Handler.Accepted.{
  accepted, IsAccepted, handle-allow_iff, handle_accepts,
}
use access_security_system_e.Engine.Permitted.{
  IsPermitted, Permits, not_denied, decide_payload_inv, none-some',
}

-- Whether an enabled detector keeps the reader in quarantine.
unfoldable pub in_quarantine : EngineState → ℕ → Bool
in_quarantine st reader_id = elim (active_detector st) [
  | none ↦ false
  | some d ↦ is_quarantined d reader_id
]

module _ {V : Type 0} (json : JsonLib V) (lib : Sodium) (m : KeyManager)
    (c : FrameHandlerConfig) where
  module _ (store : Option AccessStore) (r : DecisionResult) (granted : r.allow ≡ true) where
    decide_frame_inv :
        (now : ℕ) (st : EngineState) (fr : HandleResult)
        → (decide_frame json lib m c store now st fr).result ≡ some r
        → (fr.allow ≡ true) × Permits json lib m c store fr
    unfolding refuse
    decide_frame_inv now st fr h = elim (Bool-cases fr.allow) [
      | inr refused ↦ absurd (
          not_denied _ _ _ _
            (ap (λ o. o.result) (sym (decide_frame_refused json lib m c store now st fr refused))
              ∙ h)
            granted)
      | inl accepted ↦ (
        accepted,
        decide_payload_inv json lib m c store now
            (track_success (publish_decision_event now st fr) fr) fr r
            (ap (λ o. o.result) (sym (decide_frame_accepted json lib m c store now st fr accepted))
              ∙ h)
            granted,
      )
    ]

    check_nonce_inv :
        (now : ℕ) (st : EngineState) (d : Detector) (fr : HandleResult)
        → (check_nonce json lib m c store now st d fr).result ≡ some r
        → (fr.allow ≡ true) × Permits json lib m c store fr
    unfolding check_nonce refuse_quarantined
    check_nonce_inv now st d fr h = elim (Bool-cases (str_eq c.nonce_mode "deterministic")) [
      | inr random ↦ decide_frame_inv now st fr (rw (check_nonce, random) at h)
      | inl checked ↦
          elim (Option-cases (derive_nonce_key lib m fr.header.reader_id fr.header.key_version)) [
            | inl k ↦ absurd (none-some' (rw (check_nonce, checked, k) at h))
            | inr (key, k) ↦
                let mode = cipher_of c.cipher_mode in
                elim (Bool-cases (
                  nonce_equal fr.header.nonce (generate lib mode key (nonce_context fr.header))
                    (nonce_len_for mode))) [
                      | inl equal ↦
                          decide_frame_inv now st fr (rw (check_nonce, checked, k, equal) at h)
                      | inr differs ↦ absurd (
                          not_denied _ _ _ _
                            (rw (check_nonce, checked, k, differs, refuse_quarantined) at h)
                            granted)
                    ]
          ]
    ]

    check_seq_inv :
        (now : ℕ) (st : EngineState) (d : Detector) (fr : HandleResult)
        → (check_seq json lib m c store now st d fr).result ≡ some r
        → (fr.allow ≡ true) × Permits json lib m c store fr
    unfolding check_seq refuse_quarantined
    check_seq_inv now st d fr h =
        let report = report_seq d fr.header.reader_id fr.header.seq now in
        elim (Bool-cases (ltb 0 fr.header.seq)) [
          | inr zero ↦ check_nonce_inv now st d fr (rw (check_seq, zero) at h)
          | inl positive ↦ elim (Option-cases report.1) [
            | inl none_found ↦
                check_nonce_inv now (set_detector st report.0) report.0 fr
                  (rw (check_seq, positive, none_found) at h)
            | inr (a, back) ↦ absurd (
                not_denied _ _ _ _ (rw (check_seq, positive, back, refuse_quarantined) at h)
                  granted)
          ]
        ]

    check_detector_inv :
        (now : ℕ) (st : EngineState) (fr : HandleResult)
        → (check_detector json lib m c store now st fr).result ≡ some r
        → (fr.allow ≡ true)
          × Permits json lib m c store fr
          × (in_quarantine st fr.header.reader_id ≡ false)
    unfolding check_detector refuse_quarantined in_quarantine
    check_detector_inv now st fr h = elim (Option-cases (active_detector st)) [
      | inl a ↦
          let (x, y) = decide_frame_inv now st fr (rw (check_detector, a) at h) in
          (x, y, rw (in_quarantine, a) refl)
      | inr (d, a) ↦ elim (Bool-cases (is_quarantined d fr.header.reader_id)) [
        | inl q ↦
            absurd (not_denied _ _ _ _ (rw (check_detector, a, q, refuse_quarantined) at h) granted)
        | inr q ↦
            let (x, y) = check_seq_inv now st d fr (rw (check_detector, a, q) at h) in
            (x, y, rw (in_quarantine, a, q) refl)
      ]
    ]

  in_quarantine-start :
      (now : ℕ) (st : EngineState) (ws : Windows) (n reader_id : ℕ)
      → in_quarantine (publish_frame_event now (record st { windows = ws }) n) reader_id
        ≡ in_quarantine st reader_id
  unfolding in_quarantine active_detector publish_frame_event publish
  in_quarantine-start now st ws n reader_id = ground arith

  -- Access is granted only where all of this holds: the buffer parses to a frame, the handler's
  -- conditions accept it at that time (reader, door, key version, replay, authenticity, timestamp),
  -- an enabled detector does not hold its reader in quarantine, and its plaintext is a request to
  -- open by a card with a role that the store allows at the frame's door.
  pub handle_frame_bytes_grant :
      (store : Option AccessStore) (now : ℕ) (st : EngineState) (bytes : List ℕ)
      (r : DecisionResult)
      → (handle_frame_bytes json lib m c store now st bytes).result ≡ some r
      → r.allow ≡ true
      → (s : AccessStore) × (f : Frame) × (plaintext : List ℕ) × (store ≡ some s)
        × (parse_frame bytes c.max_ct_len ≡ ok f)
        × IsAccepted lib m c s now st.windows f plaintext
        × (in_quarantine st f.header.reader_id ≡ false)
        × IsPermitted json lib m c s f.header plaintext
  unfolding handle_frame_bytes Permits
  handle_frame_bytes_grant store now st bytes r h a =
      let out = handle lib m c store now st.windows bytes in
      let st1 = publish_frame_event now (record st { windows = out.1 }) (length bytes) in
      let (accepts, (s, n, permitted), free) = check_detector_inv store r a now st1 out.0 h in
      let accepts' : (handle lib m c (some s) now st.windows bytes).0.allow ≡ true =
        subst (λ o. (handle lib m c o now st.windows bytes).0.allow ≡ true) n accepts in
      let (f, plaintext, p, ok') = (handle-allow_iff lib m c s now st.windows bytes).0 accepts' in
      let result : out.0 ≡ accepted lib m c f plaintext =
        ap (λ o. (handle lib m c o now st.windows bytes).0) n
        ∙ ap (λ o. o.0) (handle_accepts lib m c s now st.windows bytes f plaintext p ok') in
      (
        s,
        f,
        plaintext,
        n,
        p,
        ok',
        subst (λ fr. in_quarantine st fr.header.reader_id ≡ false) result
            (sym (in_quarantine-start now st out.1 (length bytes) out.0.header.reader_id) ∙ free),
        subst (λ fr. IsPermitted json lib m c s fr.header fr.plaintext) result permitted,
      )
