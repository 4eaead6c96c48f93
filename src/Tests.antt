-- ===== src/Tests.antt =====
-- The theorems at concrete inputs, on a small daemon (Tests/Sample).
mod Sample
mod Servers
mod Loaders
mod Kinds
mod Clients
mod Machines
mod Connections
mod Migration
