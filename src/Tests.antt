-- ===== src/Tests.antt =====
-- The theorems applied to concrete inputs.
mod Connects
mod Failures
mod Ids
mod Guards
mod Discovers
mod Probes
mod Maps
mod Paths
mod Reads
mod Numbers
mod Trust
mod Walks
mod Names
mod Starts
mod Types
mod Described
mod Sessions
mod Writes
mod Jobs
mod Links
mod Servers
