-- ===== src/Tests.antt =====
-- Runs of the modelled code at concrete inputs, and each theorem applied at one.
mod Rollback
mod Manifests
mod Pipeline
mod Alerts
mod Answers
mod Batches
mod Audits
mod Requests
mod Clients
mod Calls
mod System
mod Operators
mod Quiet
