-- ===== src/Lib.antt =====
-- The access security system: a reader seals a card's request in a frame, the server parses and
-- authenticates it, asks the policy, and logs its decision.
--
-- Parts and files, with paths from the repository's root:
-- Protocol: the wire format of protocol_lib/src (protocol_utils.cpp, packet.cpp, frame.cpp,
--   frame_parser.cpp) in Protocol/Codec, Frame and Parser, and the replay window
--   (replay_window.cpp there) in Protocol/ReplayWindow. `serialize` is protocol::frame::serialize,
--   `parse_frame` is FrameParser::parse, `accept` and `remember` are ReplayWindow's methods.
-- Crypto: HKDF, the AEAD wrapper and the nonce generator of crypto_lib/src.
-- KeyManager: key_manager/src/key_manager.cpp.
-- Handler: FrameHandler and FrameDecryptor of access_core/src. `handle` is FrameHandler::handle:
--   it takes the map of replay windows and returns it with the result. The policy store is the
--   record `AccessStore` (access_decision/include/access_decision/access_store.hpp).
-- Detector: ProtocolAnomalyDetector of access_core/src/protocol_anomaly_detector.cpp.
-- EventBus: runtime_events/src/event_bus.cpp.
-- CardId, Payload, Engine: card_id_hasher.cpp, payload.cpp and engine.cpp of access_decision/src.
--   `handle_frame_bytes` is DecisionEngine::handleFrameBytes: it calls `handle`, then the detector,
--   the payload's parser and the policy, and appends to the audit log and the event bus.
-- Audit: the audit log of access_storage/src (sqlite_audit_log.cpp, audit_verify.cpp,
--   serialization.cpp): `append` is SqliteAuditLog::append and `verify_audit_chain` is
--   verifyAuditChain, over the statements of the tables; Audit/Opened has initSchema and histories
--   of a log, Audit/Page what listAuditLog shows. The engine's log is the record
--   `AuditLog`: the events it has taken, and whether its `append` throws at one.
-- Store: SqliteAccessStore of access_storage/src/sqlite_access_store.cpp. Store.antt has the tables
--   and the statements, Store/Operations the methods; `as_store` is the `AccessStore` that the
--   handler and the engine read.
-- Hex: the decoders of key_manager/src/hex_utils.cpp, access_admin/src/http_utils.cpp and
--   hw_service.cpp.
-- Hw: access_admin/src/service/hw_service.cpp. `build_encrypted_frame_bytes` seals a request in a
--   frame, Hw/Process has `process_hw_uid` (processHwUid) and the route /api/hw/uid.
-- Firmware: the reader's sketch hw_layer/hw_layer.ino: its requests, signatures and numbers.
-- Admin: the services of access_admin/src/service over the store, the detector, the bus and the
--   engine; Admin/Import is the replacement of the database of access_admin/src/app_state.cpp.
-- Config: config_loader/src/config.cpp. MemoryPolicy: access_decision/src/policy.cpp. Routes: the
--   decision service's endpoint of access_admin/src/main.cpp and the check of the token.
-- Common: the names all share, with lists, tables, maps, sets, texts and decimal numbers.
-- Examples: a small system at which the theorems with hypotheses are applied.
--
-- How code is modelled: bytes are natural numbers, buffers and std::string are lists of bytes
-- (fixed codes are texts), an unordered map is an association list. Integers are natural numbers
-- with the wrap at 32 or 64 bits written out where an operation can reach it. A pointer that may
-- be null is an option; an exception is `none` or an error value. A method behind a mutex is one
-- step. Every loop is structural recursion, so no fuel is used; the loop of HKDF runs for the number
-- of blocks. The clock is an argument, read once in each call.
--
-- Parameters: libsodium (`Sodium`, with the laws `HasHmacLength` and `HasAead`), the JSON
-- library (`JsonLib` and, with the HTTP client, `HwLib` with the law `HasDefault`), SQLite (`AuditDb` with the laws
-- `HasTables`, `AuditSchema` with the laws `HasSchema`, and `AccessDb` with the law
-- `HasEffect`), yaml-cpp (`Yaml`), Arduino and mbedTLS (`Board`, with the law `HasSameHmac`),
-- and files (`Disk`).
--
-- Not modelled: reading the key file, the export of the database, failures of SQLite while a
-- list or the rows of the audit log are read, the exception of a store's lookup whose statement
-- cannot be prepared (a lookup of `AccessStore` always returns), the routes that only pass
-- parameters to a service, the web pages, and the reader's lights, sounds and WiFi. Two calls
-- that run at once are not modelled either: each is one step.
pub mod Common
pub mod Protocol
pub mod Detector
pub mod EventBus
pub mod Crypto
pub mod KeyManager
pub mod Handler
pub mod CardId
pub mod Payload
pub mod Engine
pub mod Audit
pub mod Hex
pub mod Hw
pub mod Firmware
pub mod Store
pub mod Config
pub mod MemoryPolicy
pub mod Routes
pub mod Admin
pub mod Examples
