-- ===== src/Examples/AdminRuns.antt =====
-- A card that is registered, and an upload whose copy fails.
use access_security_system_e.Common.{
  ℕ, ◌≡◌, refl, true, false, Option, none, some, List, [], ◌∷◌, bytes_eq, replicate,
}
use access_security_system_e.Common.Text.{codes, c_str}
use access_security_system_e.Common.Rows.{any_row, find_row}
use access_security_system_e.KeyManager.{derive_card_pepper}
use access_security_system_e.CardId.{hmac_hex, to_hex, hex_char}
use access_security_system_e.Crypto.Hkdf.{
  derive, derive_loop, expand_block, extract, compute_block_count,
}
use access_security_system_e.Protocol.Codec.{put_le32}
use access_security_system_e.Handler.{FrameHandlerConfig}
use access_security_system_e.Audit.{verified}
use access_security_system_e.Engine.{EngineState}
use access_security_system_e.Engine.Accepted.{policy_answer}
use access_security_system_e.Store.{Tables, effect, insert_or_update, is_reader, is_door_role}
use access_security_system_e.Store.Operations.{
  as_store, upsert_card_hmac, key_version_of, is_role_allowed, positive_int,
}
use access_security_system_e.Admin.{
  App, ServiceResult, ok_result, card_stored, after, admin_event, upsert_card,
}
use access_security_system_e.Admin.Cards.{registered_card_granted}
use access_security_system_e.Admin.Import.{Disk, Server}
use access_security_system_e.Examples.World.{toy, manager, config, card}
use access_security_system_e.Examples.Memory.{memory, memory-HasEffect}

abbrev versioned : FrameHandlerConfig
versioned = record config { pepper_mode = "versioned" }

-- Reader 1, and the role "staff" at door 2.
abbrev staff_door : Tables
staff_door = record {
  cards = [];
  door_roles = (record { door_id = 2; role = codes "staff" }) ∷ [];
  readers = (record { reader_id = 1; current_key_version = 1 }) ∷ [];
  reader_doors = [];
}

abbrev idle : EngineState
idle = record { windows = []; detector = none; events = none; audit = none }

abbrev app : App Tables
app = record { db = staff_door; engine = idle }

abbrev answer : App Tables × Option ServiceResult
answer = upsert_card memory 7 toy manager 1 app card (codes "staff") none

-- A disk of one good upload on which no copy succeeds.
abbrev full_disk : Disk (List ℕ)
full_disk = record {
  can_open = λ d path. true;
  can_check = λ d path. true;
  check_row = λ d path. some (codes "ok");
  verify_file = λ d path key. some verified;
  file_exists = λ d path. true;
  copy_file = λ d from to. (d, false);
  write_file = λ d path content. d;
  remove_file = λ d path. d;
}

abbrev running : Server (List ℕ)
running = record { disk = []; opened = true }

abbrev stored : ServiceResult
stored = ok_result (card_stored (to_hex (replicate 32 164)))

answered : answer.1 ≡ some stored
unfolding upsert_card after derive_card_pepper derive derive_loop expand_block extract
    compute_block_count put_le32 hmac_hex to_hex hex_char upsert_card_hmac effect c_str
answered = refl

registered_card_granted_example :
    policy_answer toy manager versioned (as_store memory answer.0.db) 1 2 card (codes "open")
    ≡ some (record { allow = true; reason = "ok" })
unfolding upsert_card after admin_event derive_card_pepper derive derive_loop expand_block extract
    compute_block_count put_le32 hmac_hex upsert_card_hmac effect c_str insert_or_update as_store
    key_version_of is_role_allowed positive_int is_reader is_door_role find_row any_row bytes_eq
registered_card_granted_example =
    registered_card_granted memory toy manager memory-HasEffect versioned 7 1 app card
      (codes "staff") none stored 1 2 answered refl refl refl refl refl refl
