-- ===== src/Hw/Process.antt =====
-- hw_service.cpp: processHwUid, and the endpoint /api/hw/uid of access_admin/src/routes_api.cpp.
use access_security_system_e.Common.{
  ℕ, Bool, false, ◌>>=◌, Option, none, some, List, [], ◌∷◌, ◌++◌, String, ltb, ◌==◌, if◌then◌else◌,
}
use access_security_system_e.Common.Text.{str_eq, codes}
use access_security_system_e.Crypto.{Sodium}
use access_security_system_e.KeyManager.{KeyManager}
use access_security_system_e.Handler.{AccessStore, FrameHandlerConfig}
use access_security_system_e.Payload.{JsonLib}
use access_security_system_e.Engine.{DecisionResult, EngineState, publish}
use access_security_system_e.Engine.Decide.{handle_frame_bytes}
use access_security_system_e.Hw.{
  HwUidRequest, HwLib, parse_hw_uid_request, verify_hw_signature, build_encrypted_frame_bytes,
}

unfoldable pub push_hw_event : ℕ → EngineState → List ℕ → ℕ → ℕ → ℕ → EngineState
unfolding publish
push_hw_event now st message reader_id door_id seq = publish st (record {
  id = 0;
  ts_unix_ms = now;
  kind = "hw";
  message = message;
  reader_id = reader_id;
  door_id = door_id;
  seq = seq;
  allow = false;
  reason = "";
})

-- The members of the answer's body.
pub data HwBody : Type 0 where
  -- a refusal before a frame is built: only the reason
  refusal : String → HwBody
  -- buildHwResponse: the reader, the door, the number and the key version
  response : Bool → String → ℕ → ℕ → ℕ → ℕ → HwBody
  -- errorResult
  error : String → HwBody

unfoldable pub build_hw_response : DecisionResult → ℕ → ℕ → ℕ → ℕ → HwBody
build_hw_response r reader_id door_id seq key_version =
    response r.allow r.reason reader_id door_id seq key_version

module _ {V : Type 0} (hw : HwLib V) where
  -- The decision in the body of a response; `none` is an exception of the library.
  unfoldable pub read_decision : List ℕ → Option DecisionResult
  read_decision text = do
    j ← hw.parse text
    allow ← hw.value_bool j (codes "allow") false
    reason ← hw.value_text j (codes "reason") "remote_error"
    some (record { allow = allow; reason = reason })

  -- The loop over the attempts; `none` is an exception while the response is read.
  unfoldable pub remote_loop : List ℕ → List ℕ → DecisionResult → Option DecisionResult
  unfolding read_decision
  remote_loop body [] r = some r
  remote_loop body (attempt ∷ rest) r =
      let unavailable : DecisionResult = record { allow = false; reason = "remote_unavailable" } in
      let r' = if ltb attempt 2 then r else unavailable in
      let again = remote_loop body rest r' in
      elim (hw.post attempt body) [
        | none ↦ again
        | some answer ↦ if answer.0 == 200 then read_decision answer.1 else again
      ]

  unfoldable pub ask_remote : List ℕ → Option DecisionResult
  unfolding remote_loop
  ask_remote body = remote_loop body (0 ∷ (1 ∷ (2 ∷ []))) (record { allow = false; reason = "" })

  module _ {W : Type 0} (json : JsonLib W) (lib : Sodium) (m : KeyManager) (c : FrameHandlerConfig)
      (store : AccessStore) (remote : Bool) (random : List ℕ) where
    -- After the frame is built: the decision, here or over HTTP.
    unfoldable pub decide_scan :
        ℕ → EngineState → HwUidRequest → ℕ → List ℕ → EngineState × Option HwBody
    unfolding ask_remote build_hw_response
    decide_scan now st q key_version bytes =
        let here = handle_frame_bytes json lib m c (some store) now st bytes in
        let answer =
          λ (r : DecisionResult). build_hw_response r q.reader_id q.door_id q.hw_seq key_version in
        if remote
        then (st, ask_remote bytes >>= λ r. some (answer r))
        else (here.state, here.result >>= λ r. some (answer r))

    -- processHwUid, which reads the clock at `ts`, and the engine at `now`. Over HTTP the engine's
    -- state changes in the decision service's call, not in this one.
    unfoldable pub process_hw_uid : ℕ → ℕ → EngineState → HwUidRequest → EngineState × Option HwBody
    unfolding push_hw_event decide_scan
    process_hw_uid ts now st q =
        let key_version = store.current_key_version_for_reader q.reader_id in
        let unknown =
          push_hw_event ts st (codes "hw uid: unknown_reader") q.reader_id q.door_id 0 in
        let st1 = push_hw_event ts st (codes "uid=" ++ q.uid) q.reader_id q.door_id q.hw_seq in
        if key_version == 0
        then (unknown, some (refusal "unknown_reader"))
        else elim (build_encrypted_frame_bytes lib m c hw random q.reader_id q.door_id q.hw_seq
            key_version ts q.uid q.action) [
              | none ↦ (st1, none)
              | some bytes ↦ decide_scan now st1 q key_version bytes
            ]

    -- The endpoint: the HTTP status and the body. `parse` reads the body as JSON; an exception is
    -- answered with its text, which the library chooses.
    unfoldable pub hw_endpoint :
        Bool
        → List ℕ
        → (List ℕ → Option V)
        → ℕ
        → ℕ
        → EngineState
        → List ℕ
        → List ℕ
        → EngineState × (ℕ × Option HwBody)
    unfolding verify_hw_signature parse_hw_uid_request process_hw_uid
    hw_endpoint ready secret_hex parse ts now st signature_hex body =
        elim (verify_hw_signature lib ready signature_hex body secret_hex) [
          | some e ↦ (st, (if str_eq e "misconfigured" then 500 else 401, some (refusal e)))
          | none ↦ elim (parse body) [
            | none ↦ (st, (400, none))
            | some j ↦ elim (parse_hw_uid_request hw j) [
              | none ↦ (st, (400, some (error "invalid request")))
              | some q ↦
                  (let (st', out) = process_hw_uid ts now st q in
                    if q.hw_seq == 0
                    then (st, (400, some (error "hw_seq must be > 0")))
                    else (st', elim out [ none ↦ (400, none) | some b ↦ (200, some b) ]))
            ]
          ]
        ]
