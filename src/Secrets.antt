-- ===== src/Secrets.antt =====
-- secrets/: references to secrets in configuration values, and the managers that resolve them.
pub mod Resolver
pub mod Registry
pub mod InMemory
pub mod Filesystem
pub mod JsonExpander
mod Tests
