-- ===== src/Registry.antt =====
-- internal/app/controlplane/registry: which clients are active and which servers they keep up.
pub mod Visibility
pub mod Clients
pub mod Activation
pub mod Counts
pub mod Invariant
pub mod Updates
pub mod Starts
