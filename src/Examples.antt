-- ===== src/Examples.antt =====
-- Tests, and each theorem at a concrete input.
mod Turns
mod Frames
mod Clients
mod Projections
mod Gates
mod Sessions
mod Pools
mod Classifiers
mod Runs
mod Subscribers
mod Starts
mod Requests
mod Rejoins
mod Readers
mod Connections
mod Wires
