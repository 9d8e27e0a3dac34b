-- ===== src/Tests.antt =====
-- Concrete messages, caches, queries and servers, on which the theorems apply.
mod Dns
mod Cache
mod Query
mod Udp
mod Relay
mod Master
mod Run
mod Startup
mod Special
mod Args
mod Main
