-- ===== src/Tokens.antt =====
-- Phase 2: nonces and temporary tokens (fog/tokens/).
pub mod Nonces
pub mod Token
