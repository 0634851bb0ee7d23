-- ===== src/Domain.antt =====
-- internal/domain: specifications of servers and plugins, instances, the comparison of catalogs and
-- the cache of sessions.
pub mod Spec
pub mod Instance
pub mod SessionCache
pub mod Plugin
pub mod Equality
pub mod CatalogDiff
pub mod Errors
pub mod MetadataCache
pub mod Runtime
pub mod RuntimeDiff
