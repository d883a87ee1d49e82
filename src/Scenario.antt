-- ===== src/Scenario.antt =====
-- scenarios/: what the benchmark scenarios do with the clients.
pub mod Lports
pub mod Acls
pub mod Bind
pub mod Wait
pub mod Routed
pub mod Igmp
pub mod Sandboxes
pub mod Multinode
pub mod Ping
pub mod Network
pub mod Northbound
pub mod Conns
pub mod Unbind
