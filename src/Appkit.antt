-- ===== src/Appkit.antt =====
-- The package appkit.
pub mod Lifecycle
pub mod Boundary
pub mod ChunkFilter
pub mod QueryGate
pub mod Frame
pub mod Session
pub mod Pool
pub mod ThinkingStep
pub mod Classifier
pub mod TurnRunner
pub mod Broadcaster
