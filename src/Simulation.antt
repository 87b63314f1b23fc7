-- ===== src/Simulation.antt =====
-- The simulation package (simulation/*.go): chunks and the tick engine.
pub mod Chunk
pub mod ChunkMap
pub mod Engine
pub mod Registry
pub mod TickAll
pub mod Threads
pub mod Workers
