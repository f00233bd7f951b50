-- ===== src/Tun.antt =====
-- engine/internal/tun: the process that takes over the machine's routes.
pub mod Supervisor
