-- ===== src/Engine/Policy.antt =====
-- access_decision/src/engine.cpp: the card's role and the door's policy.
use access_security_system_e.Common.{
  ℕ, ◌-◌, true, false, not, ◌&&◌, Option, none, some, List, [], String, ltb, ◌==◌, if◌then◌else◌,
  bytes_eq,
}
use access_security_system_e.Common.Text.{str_eq, codes}
use access_security_system_e.Protocol.Frame.{Header}
use access_security_system_e.Crypto.{Sodium}
use access_security_system_e.KeyManager.{KeyManager, derive_card_pepper}
use access_security_system_e.Handler.{AccessStore, FrameHandlerConfig, HandleResult}
use access_security_system_e.CardId.{hmac_hex}
use access_security_system_e.Payload.{AccessRequest}
use access_security_system_e.Engine.{
  DecisionResult, EngineState, Outcome, denied, log_audit_event, answer_logged,
}

-- resolveCardHmac's result and its `roleOut`.
pub record Resolved : Type 0 where
  pub card_hmac : List ℕ
  pub role : Option (List ℕ)

unfoldable pub check_role_access : AccessStore → ℕ → List ℕ → DecisionResult
check_role_access store door_id role =
    if not (store.is_allowed door_id role)
    then record { allow = false; reason = "forbidden" }
    else record { allow = true; reason = "ok" }

-- A refusal: it is logged with the card and the action, and returned.
unfoldable pub refuse : ℕ → EngineState → Header → String → List ℕ → List ℕ → Outcome
unfolding answer_logged
refuse now st h reason card_id action =
    answer_logged st (log_audit_event now st h false reason card_id action) (denied reason)

module _ (lib : Sodium) (m : KeyManager) (c : FrameHandlerConfig) where
  -- The HMAC of the card under the pepper of a key version, with its role.
  unfoldable pub resolve_with : AccessStore → List ℕ → ℕ → Option Resolved
  resolve_with store card_id key_version = elim (derive_card_pepper lib m key_version) [
    | none ↦ none
    | some pepper ↦ elim (hmac_hex lib pepper card_id) [
      | none ↦ none
      | some card_hmac ↦
          some (record { card_hmac = card_hmac; role = store.role_for_card_hmac card_hmac })
    ]
  ]

  -- The second attempt, with the previous version's pepper; its HMAC is kept when it has a role.
  unfoldable pub resolve_previous : AccessStore → List ℕ → ℕ → Resolved → Option Resolved
  unfolding resolve_with
  resolve_previous store card_id current_kv current =
      elim (resolve_with store card_id (current_kv - 1)) [
        | none ↦ none
        | some previous ↦ elim (previous.role) [ none ↦ some current | some _ ↦ some previous ]
      ]

  -- resolveCardHmac; `none` is an exception of the key manager or the hasher.
  unfoldable pub resolve_card_hmac : AccessStore → List ℕ → ℕ → Option Resolved
  unfolding resolve_previous
  resolve_card_hmac store card_id current_kv =
      if str_eq c.pepper_mode "static"
      then resolve_with store card_id 1
      else elim (resolve_with store card_id current_kv) [
        | none ↦ none
        | some current ↦ elim (current.role) [
          | some _ ↦ some current
          | none ↦
              if c.allow_previous_key_version && ltb 1 current_kv
              then resolve_previous store card_id current_kv current
              else some current
        ]
      ]

  -- The end of checkAccessPolicy: the role's access to the door is logged and returned.
  unfoldable pub decide_role :
      ℕ → EngineState → AccessStore → HandleResult → AccessRequest → Resolved → Outcome
  unfolding check_role_access refuse answer_logged
  decide_role now st store fr request resolved = elim (resolved.role) [
    | none ↦ refuse now st fr.header "unknown_card" resolved.card_hmac request.action
    | some role ↦
        (let result = check_role_access store fr.header.door_id role in
          answer_logged st
            (log_audit_event now st fr.header result.allow result.reason resolved.card_hmac
              request.action)
            result)
  ]

  unfoldable pub check_store_policy :
      AccessStore → ℕ → EngineState → HandleResult → AccessRequest → Outcome
  unfolding decide_role refuse
  check_store_policy store now st fr request =
      let current_kv = store.current_key_version_for_reader fr.header.reader_id in
      if current_kv == 0
      then refuse now st fr.header "unknown_reader" [] []
      else elim (resolve_card_hmac store request.card_id current_kv) [
        | none ↦ record { state = st; result = none }
        | some resolved ↦ decide_role now st store fr request resolved
      ]

  unfoldable pub check_access_policy :
      Option AccessStore → ℕ → EngineState → HandleResult → AccessRequest → Outcome
  unfolding check_store_policy refuse
  check_access_policy store now st fr request =
      if not (bytes_eq request.action (codes "open"))
      then refuse now st fr.header "bad_action" [] []
      else elim store [
        | none ↦ refuse now st fr.header "no_store" [] []
        | some s ↦ check_store_policy s now st fr request
      ]
