-- ===== src/Fog.antt =====
-- The fog node: its state, the handlers and what they answer (fog/main.py and the route modules).
pub mod App
pub mod Context
pub mod Pop
pub mod Validation
pub mod Registration
pub mod EpochRoutes
pub mod Revocation
pub mod TokenRoutes
pub mod Verification
pub mod Server
