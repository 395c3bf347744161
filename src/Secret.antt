-- ===== src/Secret.antt =====
-- internal/secret: references to secrets, and the encrypted store that they lead into.
pub mod Reference
