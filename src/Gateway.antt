-- ===== src/Gateway.antt =====
-- crates/nexus-scout: the gateway behind the sanitizer.
pub mod Limits
pub mod Shaper
pub mod Budget
pub mod Json
pub mod Errors
pub mod Params
pub mod Convert
pub mod Float
pub mod Admission
pub mod Execution
pub mod Text
pub mod Startup
pub mod Pages
pub mod Handlers
pub mod Probes
pub mod Routes
pub mod Serve
pub mod Index
pub mod Config
mod Tests
