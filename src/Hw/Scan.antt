-- ===== src/Hw/Scan.antt =====
-- A scan from the request to the answer, with the engine in the same process.
use access_security_system_e.KeyManager.{KeyManager}
