-- ===== src/Bootstrap.antt =====
-- bootstrap: the configuration (Environ, Config), the start (Startup) and the two phases of the stop
-- (Lifecycle).
pub mod Environ
pub mod Config
pub mod Startup
pub mod Lifecycle
