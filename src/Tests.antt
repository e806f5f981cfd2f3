-- ===== src/Tests.antt =====
-- Witnesses: each theorem of the results applied to a concrete input.
pub mod Data
mod Parsing
mod Faults
mod Refusals
pub mod Summaries
mod Captures
mod Drives
mod Series
mod Scheduling
mod Hosts
pub mod Verdicts
pub mod Spans
mod Numbers
pub mod Attribution
mod Runs
mod Projects
mod Appliers
mod Probes
