-- ===== src/Gateway.antt =====
-- The gateway package (gateway/*.go).
pub mod Shapes
pub mod Coordinates
pub mod Pubsub
pub mod Router
