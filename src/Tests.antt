-- ===== src/Tests.antt =====
-- Runs of the model at concrete inputs.
mod Messages
mod Lists
mod Configs
mod Sockets
mod Sessions
mod Timers
mod Peers
mod News
mod Uris
mod Tables
mod Reads
mod Heaps
mod Routing
mod Heartbeats
