-- ===== src/Keys.antt =====
-- keys: the registry of key managers, the manager on a file system, and the one on Vault.
pub mod Registry
pub mod Filesystem
pub mod Vault
mod Tests
