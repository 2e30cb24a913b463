-- ===== src/Engine/Quarantine.antt =====
-- What the anomaly detector makes the engine refuse.
use access_security_system_e.Common.{
  ℕ, ◌≡◌, refl, ap, ◌∙◌, true, false, Option, some, List, inl, inr, length, ltb, Option-cases,
}
use access_security_system_e.Common.Text.{str_eq}
use access_security_system_e.Crypto.{Sodium}
use access_security_system_e.Crypto.Aead.{nonce_len_for, generate}
use access_security_system_e.KeyManager.{KeyManager}
use access_security_system_e.Handler.{
  AccessStore, FrameHandlerConfig, HandleResult, Windows, cipher_of, handle, make_error,
}
use access_security_system_e.Detector.{
  Detector, nonce_mismatch, is_quarantined, report_nonce_mismatch, nonce_equal,
}
use access_security_system_e.Payload.{JsonLib}
use access_security_system_e.Engine.{
  EngineState, denied, publish_frame_event, publish_anomaly_event, active_detector, set_detector,
  nonce_context,
}
use access_security_system_e.Engine.Decide.{
  refuse_quarantined, check_nonce, check_seq, check_detector, handle_frame_bytes,
}
use access_security_system_e.Protocol.Parser.{parse_frame}
use access_security_system_e.KeyManager.{derive_nonce_key}
use access_security_system_e.Common.{replicate}
use access_security_system_e.Protocol.Parser.{err, ParseError}
use access_security_system_e.Handler.{empty_header, parse_error_to_code}
use access_security_system_e.Engine.Grants.{in_quarantine}
use access_security_system_e.Engine.Watched.{
  false-true, detector-publish, detector-refuse_quarantined, active_detector-same,
  detector-publish_anomaly_event, in_quarantine-some, active_inv, mismatch_quarantines,
  enabled-mismatch,
}
use access_security_system_e.Engine.Logging.{
  Takes, result-refuse_quarantined, audit-publish_anomaly_event, audit-publish_frame_event,
}
use mathlib.Core.Path.{subst}
use access_security_system_e.Common.{sym}

module _ {V : Type 0} (json : JsonLib V) (lib : Sodium) (m : KeyManager) (c : FrameHandlerConfig)
    (store : Option AccessStore) where
  pub check_quarantined :
      (now : ℕ) (st : EngineState) (fr : HandleResult)
      → in_quarantine st fr.header.reader_id ≡ true
      → check_detector json lib m c store now st fr ≡ refuse_quarantined now st fr
  unfolding in_quarantine check_detector
  check_quarantined now st fr h = elim (Option-cases (active_detector st)) [
    | inl a ↦ absurd (false-true (rw (in_quarantine, a) at h))
    | inr (d, a) ↦ rw (check_detector, a, (rw (in_quarantine, a) at h)) refl
  ]

  pub start_detector :
      (now : ℕ) (st : EngineState) (ws : Windows) (n : ℕ)
      → (publish_frame_event now (record st { windows = ws }) n).detector ≡ st.detector
  unfolding publish_frame_event
  start_detector now st ws n = detector-publish (record st { windows = ws }) _

  -- A nonce that differs from the expected one: the reader is in quarantine after the call.
  check_nonce_differs :
      (now : ℕ) (st : EngineState) (d : Detector) (fr : HandleResult) (key : List ℕ)
      → Takes st.audit
      → str_eq c.nonce_mode "deterministic" ≡ true
      → d.config.enabled ≡ true
      → derive_nonce_key lib m fr.header.reader_id fr.header.key_version ≡ some key
      → nonce_equal fr.header.nonce
          (generate lib (cipher_of c.cipher_mode) key (nonce_context fr.header))
          (nonce_len_for (cipher_of c.cipher_mode))
        ≡ false
      → let out = check_nonce json lib m c store now st d fr in
        (out.result ≡ some (denied "quarantined"))
        × (in_quarantine out.state fr.header.reader_id ≡ true)
  unfolding check_nonce
  check_nonce_differs now st d fr key t mode on k differs =
      let r = fr.header.reader_id in
      let d' = (report_nonce_mismatch d r now).0 in
      let st1 = publish_anomaly_event now (set_detector st d') r nonce_mismatch in
      let e : check_nonce json lib m c store now st d fr ≡ refuse_quarantined now st1 fr =
        rw (check_nonce, mode, k, differs) refl in
      let kept : (refuse_quarantined now st1 fr).state.detector ≡ some d' =
        detector-refuse_quarantined now st1 fr
        ∙ detector-publish_anomaly_event now (set_detector st d') r nonce_mismatch in
      (
        ap (λ o. o.result) e
            ∙ result-refuse_quarantined now st1 fr (
                subst Takes
                  (sym (audit-publish_anomaly_event now (set_detector st d') r nonce_mismatch)) t),
        ap (λ o. in_quarantine o.state r) e
            ∙ in_quarantine-some (refuse_quarantined now st1 fr).state d' r kept
                (enabled-mismatch d r now ∙ on) (mismatch_quarantines d r now),
      )

  -- A frame without a number is not checked for a rollback.
  not_held :
      (now : ℕ) (st : EngineState) (d : Detector) (fr : HandleResult)
      → active_detector st ≡ some d
      → is_quarantined d fr.header.reader_id ≡ false
      → ltb 0 fr.header.seq ≡ false
      → check_detector json lib m c store now st fr ≡ check_nonce json lib m c store now st d fr
  unfolding check_detector check_seq
  not_held now st d fr active free zero = rw (check_detector, active, free, check_seq, zero) refl

  -- With an enabled detector and deterministic nonces, a buffer that is no frame at all is answered
  -- "quarantined" instead of its parse error, and it puts reader 0 into quarantine, a reader that
  -- the buffer does not name: the check reads the zeroed header of the error result. The nonce that
  -- is expected of reader 0 must not be zero itself, and the audit log takes every event.
  pub garbage_quarantines_reader_0 :
      (now : ℕ) (st : EngineState) (d : Detector) (bytes : List ℕ) (e : ParseError) (key : List ℕ)
      → Takes st.audit
      → active_detector st ≡ some d
      → is_quarantined d 0 ≡ false
      → str_eq c.nonce_mode "deterministic" ≡ true
      → parse_frame bytes c.max_ct_len ≡ err e
      → derive_nonce_key lib m 0 0 ≡ some key
      → nonce_equal
          (replicate 24 0)
          (generate lib (cipher_of c.cipher_mode) key (nonce_context empty_header))
          (nonce_len_for (cipher_of c.cipher_mode))
        ≡ false
      → let out = handle_frame_bytes json lib m c store now st bytes in
        (out.result ≡ some (denied "quarantined")) × (in_quarantine out.state 0 ≡ true)
  unfolding handle_frame_bytes handle make_error
  garbage_quarantines_reader_0 now st d bytes e key t active free mode p k differs =
      let fr = make_error (parse_error_to_code e) empty_header in
      let st1 = publish_frame_event now (record st { windows = st.windows }) (length bytes) in
      let active1 : active_detector st1 ≡ some d =
        active_detector-same st1 st (start_detector now st st.windows (length bytes)) ∙ active in
      let handled : handle lib m c store now st.windows bytes ≡ (fr, st.windows) =
        rw (handle, p) refl in
      let same : handle_frame_bytes json lib m c store now st bytes
          ≡ check_nonce json lib m c store now st1 d fr =
        ap
          (λ (o : HandleResult × Windows).
            check_detector json lib m c store now
              (publish_frame_event now (record st { windows = o.1 }) (length bytes)) o.0)
          handled
        ∙ not_held now st1 d fr active1 free refl in
      let (answer, held) =
        check_nonce_differs now st1 d fr key
          (subst Takes
            (sym
              (audit-publish_frame_event now (record st { windows = st.windows }) (length bytes)))
            t)
          mode (active_inv st d active) k differs in
      (ap (λ o. o.result) same ∙ answer, ap (λ o. in_quarantine o.state 0) same ∙ held)
