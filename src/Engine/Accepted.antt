-- ===== src/Engine/Accepted.antt =====
-- access_decision/src/engine.cpp: what the engine answers to a frame that the handler accepts and
-- no detector holds.
use access_security_system_e.Common.{
  ℕ, ◌≡◌, refl, ap, ◌∙◌, Bool, true, false, not, ◌&&◌, Option, none, some, List, arith, length, ltb,
  [], ◌==◌, if◌then◌else◌, inl, inr, Bool-cases, Option-cases, bytes_eq,
}
use access_security_system_e.Common.Text.{str_eq, codes}
use access_security_system_e.Crypto.{Sodium}
use access_security_system_e.Crypto.Aead.{nonce_len_for, generate}
use access_security_system_e.KeyManager.{KeyManager, derive_nonce_key}
use access_security_system_e.Handler.{
  AccessStore, FrameHandlerConfig, HandleResult, cipher_of, handle,
}
use access_security_system_e.Detector.{
  Detector, AnomalyType, is_quarantined, report_seq, nonce_equal,
}
use access_security_system_e.EventBus.{Event}
use access_security_system_e.Payload.{JsonLib, AccessRequest, parse_access_request_json}
use access_security_system_e.Engine.{
  DecisionResult, EngineState, denied, publish, publish_frame_event, publish_decision_event,
  active_detector, set_detector, nonce_context,
}
use access_security_system_e.Engine.Policy.{
  check_role_access, resolve_card_hmac, decide_role, check_store_policy, check_access_policy,
}
use access_security_system_e.Engine.Decide.{
  track_success, decide_payload, decide_frame, decide_frame_accepted, check_nonce, check_seq,
  check_detector, handle_frame_bytes,
}
use access_security_system_e.Engine.Logging.{
  Takes, result-refuse, result-answer_logged, audit-track_success, audit-publish_decision_event,
  audit-publish_frame_event,
}
use mathlib.Core.Path.{subst}
use access_security_system_e.Common.{sym}

abbrev no_anomaly : Option AnomalyType → Bool
no_anomaly none = true
no_anomaly (some a) = false

none_reported : (o : Option AnomalyType) → no_anomaly o ≡ true → o ≡ none
none_reported none h = refl
none_reported (some a) h = cc

both : (a b : Bool) → (a && b) ≡ true → (a ≡ true) × (b ≡ true)
both a b h = ground arith

not-true : (a : Bool) → not a ≡ true → a ≡ false
not-true a h = ground arith

pub windows-publish : (st : EngineState) (e : Event) → (publish st e).windows ≡ st.windows
unfolding publish
windows-publish st e = ground arith

pub detector-publish : (st : EngineState) (e : Event) → (publish st e).detector ≡ st.detector
unfolding publish
detector-publish st e = ground arith

module _ (lib : Sodium) (m : KeyManager) (c : FrameHandlerConfig) where
  -- The policy's answer, without events, log and frames: to open, for a card with a role that the
  -- door's list has.
  unfoldable pub policy_answer : AccessStore → ℕ → ℕ → List ℕ → List ℕ → Option DecisionResult
  unfolding bytes_eq resolve_card_hmac check_role_access
  policy_answer store reader_id door_id card_id action =
      let kv = store.current_key_version_for_reader reader_id in
      if not (bytes_eq action (codes "open"))
      then some (denied "bad_action")
      else if kv == 0
      then some (denied "unknown_reader")
      else elim (resolve_card_hmac lib m c store card_id kv) [
        | none ↦ none
        | some resolved ↦ elim (resolved.role) [
          | none ↦ some (denied "unknown_card")
          | some role ↦ some (check_role_access store door_id role)
        ]
      ]

  result-check_access_policy :
      (store : AccessStore) (now : ℕ) (st : EngineState) (fr : HandleResult)
      (request : AccessRequest)
      → Takes st.audit
      → (check_access_policy lib m c (some store) now st fr request).result
        ≡ policy_answer store fr.header.reader_id fr.header.door_id request.card_id request.action
  unfolding check_access_policy check_store_policy decide_role policy_answer
  result-check_access_policy store now st fr request t =
      let kv = store.current_key_version_for_reader fr.header.reader_id in
      elim (Bool-cases (bytes_eq request.action (codes "open"))) [
        | inr e ↦
            rw (check_access_policy, policy_answer, e)
              (result-refuse now st fr.header "bad_action" [] [] t)
        | inl e ↦ elim (Bool-cases (kv == 0)) [
          | inl z ↦
              rw (check_access_policy, policy_answer, e, check_store_policy, z)
                (result-refuse now st fr.header "unknown_reader" [] [] t)
          | inr z ↦ elim (Option-cases (resolve_card_hmac lib m c store request.card_id kv)) [
            | inl r ↦ rw (check_access_policy, policy_answer, e, check_store_policy, z, r) refl
            | inr (resolved, r) ↦ elim (Option-cases resolved.role) [
              | inl k ↦
                  rw
                    (
                      check_access_policy, policy_answer, e, check_store_policy, z, r, decide_role,
                      k,
                    )
                    (result-refuse now st fr.header "unknown_card" resolved.card_hmac request.action
                      t)
              | inr (role, k) ↦
                  rw
                    (
                      check_access_policy, policy_answer, e, check_store_policy, z, r, decide_role,
                      k,
                    )
                    (let q = check_role_access store fr.header.door_id role in
                      result-answer_logged now st fr.header q.allow q.reason resolved.card_hmac
                        request.action q t)
            ]
          ]
        ]
      ]

  -- No enabled detector holds the reader in quarantine or takes the number for a rollback.
  unfoldable pub is_quiet : EngineState → ℕ → ℕ → ℕ → Bool
  unfolding active_detector is_quarantined report_seq
  is_quiet st reader_id seq now = elim (active_detector st) [
    | none ↦ true
    | some d ↦ not (is_quarantined d reader_id) && no_anomaly (report_seq d reader_id seq now).1
  ]

  abbrev pub HasNonce : HandleResult → Type 0
  HasNonce fr =
      let mode = cipher_of c.cipher_mode in
      str_eq c.nonce_mode "deterministic" ≡ true
      → (key : List ℕ) × (derive_nonce_key lib m fr.header.reader_id fr.header.key_version
          ≡ some key)
        × (nonce_equal fr.header.nonce (generate lib mode key (nonce_context fr.header))
              (nonce_len_for mode)
            ≡ true)

  pub is_quiet-same :
      (st st' : EngineState) (reader_id seq now : ℕ)
      → st.detector ≡ st'.detector
      → is_quiet st reader_id seq now ≡ is_quiet st' reader_id seq now
  unfolding is_quiet active_detector
  is_quiet-same st st' reader_id seq now e =
      ap (λ o. is_quiet (record st { detector = o }) reader_id seq now) e

  module _ {W : Type 0} (json : JsonLib W) (store : AccessStore) (fr : HandleResult)
      (request : AccessRequest) (ok : fr.allow ≡ true)
      (parsed : parse_access_request_json json fr.plaintext ≡ some request)
      (nonce : HasNonce fr) where
    abbrev pub answer : Option DecisionResult
    answer =
        policy_answer store fr.header.reader_id fr.header.door_id request.card_id request.action

    result-decide_frame :
        (now : ℕ) (st : EngineState)
        → Takes st.audit
        → (decide_frame json lib m c (some store) now st fr).result ≡ answer
    unfolding decide_payload
    result-decide_frame now st t =
        ap (λ o. o.result) (decide_frame_accepted json lib m c (some store) now st fr ok)
        ∙ rw (decide_payload, parsed)
            (result-check_access_policy store now
              (track_success (publish_decision_event now st fr) fr) fr request
              (subst Takes
                (sym (
                  audit-track_success (publish_decision_event now st fr) fr
                  ∙ audit-publish_decision_event now st fr))
                t))

    result-check_nonce :
        (now : ℕ) (st : EngineState) (d : Detector)
        → Takes st.audit
        → (check_nonce json lib m c (some store) now st d fr).result ≡ answer
    unfolding check_nonce
    result-check_nonce now st d t = elim (Bool-cases (str_eq c.nonce_mode "deterministic")) [
      | inr e ↦ rw (check_nonce, e) (result-decide_frame now st t)
      | inl e ↦
          let (key, k, same) = nonce e in
          rw (check_nonce, e, k, same) (result-decide_frame now st t)
    ]

    result-check_seq :
        (now : ℕ) (st : EngineState) (d : Detector)
        → Takes st.audit
        → no_anomaly (report_seq d fr.header.reader_id fr.header.seq now).1 ≡ true
        → (check_seq json lib m c (some store) now st d fr).result ≡ answer
    unfolding check_seq
    result-check_seq now st d t q =
        let r = report_seq d fr.header.reader_id fr.header.seq now in
        elim (Bool-cases (ltb 0 fr.header.seq)) [
          | inr e ↦ rw (check_seq, e) (result-check_nonce now st d t)
          | inl e ↦
              rw (check_seq, e, none_reported r.1 q)
                (result-check_nonce now (set_detector st r.0) r.0 t)
        ]

    result-check_detector :
        (now : ℕ) (st : EngineState)
        → Takes st.audit
        → is_quiet st fr.header.reader_id fr.header.seq now ≡ true
        → (check_detector json lib m c (some store) now st fr).result ≡ answer
    unfolding check_detector is_quiet
    result-check_detector now st t q = elim (Option-cases (active_detector st)) [
      | inl e ↦ rw (check_detector, e) (result-decide_frame now st t)
      | inr (d, e) ↦
          let free : (not (is_quarantined d fr.header.reader_id)
                && no_anomaly (report_seq d fr.header.reader_id fr.header.seq now).1)
              ≡ true =
            rw (is_quiet, e) at q in
          let (a, b) = both _ _ free in
          rw (check_detector, e, not-true (is_quarantined d fr.header.reader_id) a)
            (result-check_seq now st d t b)
    ]

    -- The whole call, where the handler accepts the buffer and the log takes every event.
    pub result-handle_frame_bytes :
        (now : ℕ) (st : EngineState) (bytes : List ℕ)
        → Takes st.audit
        → (handle lib m c (some store) now st.windows bytes).0 ≡ fr
        → is_quiet st fr.header.reader_id fr.header.seq now ≡ true
        → (handle_frame_bytes json lib m c (some store) now st bytes).result ≡ answer
    unfolding handle_frame_bytes publish_frame_event
    result-handle_frame_bytes now st bytes t e q =
        let ws = (handle lib m c (some store) now st.windows bytes).1 in
        let st1 = publish_frame_event now (record st { windows = ws }) (length bytes) in
        let same : st1.detector ≡ st.detector = detector-publish (record st { windows = ws }) _ in
        ap (λ o. (check_detector json lib m c (some store) now st1 o).result) e
        ∙ result-check_detector now st1
            (subst Takes
              (sym (audit-publish_frame_event now (record st { windows = ws }) (length bytes))) t)
            (is_quiet-same st1 st fr.header.reader_id fr.header.seq now same ∙ q)
