-- ===== src/Proxy.antt =====
-- engine/internal/proxy: the adapters, their health, the choice of one for each connection, the
-- dialling, the registry of connections, the datagrams, and the server with its configuration.
pub mod Adapter
pub mod Candidates
pub mod Config
pub mod Dial
pub mod Health
pub mod Registry
pub mod Scheduler
pub mod Server
pub mod Udp
