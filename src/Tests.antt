-- ===== src/Tests.antt =====
-- Tests of the definitions at concrete inputs, and uses of the theorems there.
mod Simulation
mod Ratelimit
mod Gateway
mod Storage
mod Registry
mod Stored
mod Router
mod TickAll
mod Server
mod Threads
mod Startup
mod Connections
mod Workers
