-- ===== src/Examples.antt =====
-- Runs at concrete inputs.
mod Scheduling
mod Tasks
mod Sessions
mod Catalogs
mod Registry
mod Governance
mod Requests
mod Gateways
mod Reloads
mod Initialisation
mod Metadata
