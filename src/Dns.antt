-- ===== src/Dns.antt =====
-- engine/internal/dns: the resolver's configuration, its cache, its messages and its notices.
pub mod Cache
pub mod Fallback
pub mod Query
pub mod Wire
pub mod Config
