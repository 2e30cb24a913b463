-- ===== src/Admin.antt =====
-- access_admin/src/service: the services of the administration over the store, the detector and the
-- event bus (readers_service.cpp, cards_service.cpp, door_roles_service.cpp, events_service.cpp,
-- access_service.cpp), with the results of service_types.hpp. A service holds the mutex, so it is one step; `none` is an exception.
pub mod Cards
pub mod AuditLog
pub mod Import
use access_security_system_e.Common.{
  ℕ, ◌≡◌, Bool, true, false, not, ◌>>=◌, Option, none, some, List, [], ◌∷◌, ◌++◌, String, ◌==◌,
  if◌then◌else◌,
}
use access_security_system_e.Common.Text.{codes}
use access_security_system_e.Crypto.{Sodium}
use access_security_system_e.KeyManager.{KeyManager, derive_card_pepper}
use access_security_system_e.CardId.{hmac_hex}
use access_security_system_e.Handler.{FrameHandlerConfig}
use access_security_system_e.Detector.{Detector, unquarantine}
use access_security_system_e.EventBus.{Event, EventBus, get_after}
use access_security_system_e.Payload.{JsonLib}
use access_security_system_e.Engine.{
  DecisionResult, EngineState, Outcome, publish, active_detector, set_detector,
}
use access_security_system_e.Engine.Decide.{handle_frame_bytes}
use access_security_system_e.Audit.{VerifyResult}
use access_security_system_e.Audit.Page.{AuditEntry}
use access_security_system_e.Store.Operations
use access_security_system_e.Store.{AccessDb, ReaderRow, ReaderDoorRow, DoorRoleRow, CardRow}
use access_security_system_e.Store.Operations.{as_store}

-- The members of a result's body.
pub data Body : Type 0 where
  done : Body
  card_stored : List ℕ → Body
  released : ℕ → Body
  error : String → Body
  note : String → Body
  readers : List (ReaderRow × List ℕ) → Body
  cards : List CardRow → Body
  door_roles : List DoorRoleRow → Body
  events : ℕ → List Event → Body
  decision : DecisionResult → Body
  verdict : VerifyResult → Body
  audit : List AuditEntry → Body

pub record ServiceResult : Type 0 where
  pub ok : Bool
  pub http_status : ℕ
  pub body : Body

abbrev pub ok_result : Body → ServiceResult
ok_result body = record { ok = true; http_status = 200; body = body }

abbrev pub error_result : String → ℕ → ServiceResult
error_result message status = record { ok = false; http_status = status; body = error message }

-- The store's database, and the state that the engine shares with the administration.
pub record App (S : Type 0) : Type 0 where
  pub db : S
  pub engine : EngineState

-- An event of the kind "admin".
unfoldable pub admin_event : {S : Type 0} → ℕ → App S → List ℕ → ℕ → ℕ → App S
unfolding publish
admin_event now app message reader_id door_id = record app {
  engine = publish app.engine (record {
    id = 0;
    ts_unix_ms = now;
    kind = "admin";
    message = message;
    reader_id = reader_id;
    door_id = door_id;
    seq = 0;
    allow = false;
    reason = "";
  });
}

-- byReader[reader_id]
unfoldable pub doors_of : ℕ → List ReaderDoorRow → List ℕ
doors_of reader_id [] = []
doors_of reader_id (row ∷ rows) =
    let rest = doors_of reader_id rows in
    if row.reader_id == reader_id then row.door_id ∷ rest else rest

unfoldable pub with_doors : List ReaderDoorRow → List ReaderRow → List (ReaderRow × List ℕ)
unfolding doors_of
with_doors doors [] = []
with_doors doors (r ∷ rows) = (r, doors_of r.reader_id doors) ∷ with_doors doors rows

-- std::optional::value_or
abbrev pub value_or : Option ℕ → ℕ → ℕ
value_or none default = default
value_or (some v) default = v

module _ {S : Type 0} (access : AccessDb S) (now : ℕ) where
  -- What follows a change of the store: the event and the result.
  unfoldable pub after : App S → Option S → List ℕ → ℕ → ℕ → Body → App S × Option ServiceResult
  unfolding admin_event
  after app changed message reader_id door_id body = elim changed [
    | none ↦ (app, none)
    | some db ↦
        (admin_event now (record app { db = db }) message reader_id door_id, some (ok_result body))
  ]

  -- readers_service.cpp
  unfoldable pub list_readers : App S → ServiceResult
  unfolding with_doors
  list_readers app = ok_result (
      readers (
        with_doors (Operations.list_reader_doors access app.db 0)
          (Operations.list_readers access app.db)))

  unfoldable pub upsert_reader : App S → ℕ → ℕ → App S × Option ServiceResult
  unfolding after
  upsert_reader app reader_id key_version =
      after app (Operations.upsert_reader access app.db reader_id key_version)
        (codes "upsertReader") reader_id 0 done

  unfoldable pub delete_reader : App S → ℕ → App S × Option ServiceResult
  unfolding after
  delete_reader app reader_id =
      after app (Operations.delete_reader access app.db reader_id) (codes "deleteReader") reader_id
        0 done

  unfoldable pub bind_door : App S → ℕ → ℕ → App S × Option ServiceResult
  unfolding after
  bind_door app reader_id door_id =
      after app (Operations.allow_door_for_reader access app.db reader_id door_id)
        (codes "bindDoor") reader_id door_id done

  unfoldable pub unbind_door : App S → ℕ → ℕ → App S × Option ServiceResult
  unfolding after
  unbind_door app reader_id door_id =
      after app (Operations.revoke_door_for_reader access app.db reader_id door_id)
        (codes "unbindDoor") reader_id door_id done

  -- The server always has a detector, which may be off.
  unfoldable pub unquarantine_reader : App S → ℕ → App S × ServiceResult
  unfolding admin_event unquarantine active_detector
  unquarantine_reader app reader_id = elim (active_detector app.engine) [
    | none ↦ (app, error_result "misuse_detection_disabled" 400)
    | some d ↦
        (let (d', was) = unquarantine d reader_id in
          let app' = record app { engine = set_detector app.engine d' } in
          if not was then (app', error_result "not_quarantined" 400) else (
            admin_event now app' (codes "unquarantine") reader_id 0,
            ok_result (released reader_id),
          ))
  ]

  -- cards_service.cpp
  unfoldable pub list_cards : App S → ℕ → ℕ → ServiceResult
  list_cards app limit offset = ok_result (cards (Operations.list_cards access app.db limit offset))

  unfoldable pub delete_card : App S → List ℕ → App S × Option ServiceResult
  unfolding after
  delete_card app card_hmac =
      after app (Operations.delete_card_hmac access app.db card_hmac) (codes "deleteCard") 0 0 done

  -- `current` is cfg.keyManagement.currentKeyVersion, for a request without a key version.
  unfoldable pub upsert_card :
      Sodium → KeyManager → ℕ → App S → List ℕ → List ℕ → Option ℕ → App S × Option ServiceResult
  unfolding after
  upsert_card lib m current app card_id role key_version =
      let kv = value_or key_version current in
      elim (derive_card_pepper lib m kv) [
        | none ↦ (app, none)
        | some pepper ↦ elim (hmac_hex lib pepper card_id) [
          | none ↦ (app, none)
          | some hmac ↦
              after app (Operations.upsert_card_hmac access app.db hmac role)
                (codes "upsertCard role=" ++ role) 0 0 (card_stored hmac)
        ]
      ]

  -- door_roles_service.cpp
  unfoldable pub list_door_roles : App S → ServiceResult
  list_door_roles app = ok_result (door_roles (Operations.list_door_roles access app.db 0))

  unfoldable pub allow_role : App S → ℕ → List ℕ → App S × Option ServiceResult
  unfolding after
  allow_role app door_id role =
      after app (Operations.allow_role access app.db door_id role) (codes "allowRole: " ++ role) 0
        door_id done

  unfoldable pub revoke_role : App S → ℕ → List ℕ → App S × Option ServiceResult
  unfolding after
  revoke_role app door_id role =
      after app (Operations.revoke_role access app.db door_id role) (codes "revokeRole: " ++ role) 0
        door_id done

  -- events_service.cpp; without a bus there is nothing.
  unfoldable pub get_events : App S → ℕ → ℕ → Option ServiceResult
  unfolding get_after
  get_events app after_id limit = elim (app.engine.events) [
    | none ↦ none
    | some bus ↦ some (ok_result (events bus.last_id (get_after bus after_id limit)))
  ]

  -- access_service.cpp
  unfoldable pub check_access :
      {V : Type 0}
      → JsonLib V
      → Sodium
      → KeyManager
      → FrameHandlerConfig
      → App S
      → List ℕ
      → App S × Option ServiceResult
  unfolding handle_frame_bytes
  check_access json lib m c app frame_bytes =
      let out =
        handle_frame_bytes json lib m c (some (as_store access app.db)) now app.engine
          frame_bytes in
      (record app { engine = out.state }, out.result >>= λ r. some (ok_result (decision r)))
