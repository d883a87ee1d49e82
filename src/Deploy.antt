-- ===== src/Deploy.antt =====
-- ansible/library and utils.py: how the emulated chassis are laid out over the hosts, and how the
-- sandboxes that are there are looked up.
pub mod Chassis
pub mod Engines
pub mod Lookup
