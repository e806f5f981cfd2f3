-- ===== src/Appliers.antt =====
-- The appliers that turn translated faults into requests and commands, each with the undo that it
-- returns. What the other side answers is a parameter.
pub mod WireMock
pub mod Toxiproxy
pub mod Docker
