-- ===== src/Shared.antt =====
-- common/comtypes, common/comretry, common/comutils and other packages of common
pub mod SetOrder
pub mod HashSet
pub mod Retry
pub mod Singleton
pub mod Collection
pub mod RateLimiter
pub mod Runner
pub mod Hub
pub mod Consumer
pub mod Cache
pub mod Failure
pub mod Restful
