-- ===== src/Transports.antt =====
-- The transports, internal/transports, with internal/mcpcontrol.
pub mod Auth
pub mod Origin
