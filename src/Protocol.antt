-- ===== src/Protocol.antt =====
-- protocol_lib: the wire format of frames, their parser and the replay window.
pub mod Codec
pub mod Frame
pub mod Parser
pub mod ReplayWindow
