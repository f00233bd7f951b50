-- ===== src/Examples.antt =====
-- Runs of the models on concrete inputs, and the theorems applied at such inputs.
mod Scheduling
mod Healing
mod Lifecycles
mod Accounting
mod Caching
mod Packets
mod Serving
mod Datagrams
mod Dialling
mod Tunnels
