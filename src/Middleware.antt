-- ===== src/Middleware.antt =====
-- middleware/: the parts of the middleware package.
pub mod Csrf
pub mod Sessions
pub mod Guards
pub mod Contexts
pub mod Recorder
pub mod Policy
