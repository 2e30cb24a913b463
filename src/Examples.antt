-- ===== src/Examples.antt =====
-- Concrete inputs at which the theorems with hypotheses are applied.
pub mod World
mod ProtocolRuns
mod HandlerRuns
mod EngineRuns
mod DetectorRuns
mod EventRuns
mod CryptoRuns
mod AuditRuns
pub mod Memory
mod StoreRuns
mod AdminRuns
mod HwRuns
mod FirmwareRuns
mod HexRuns
