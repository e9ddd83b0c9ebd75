-- ===== src/Logger.antt =====
-- include/common/s4logger.h and source/common/s4logger.cpp: `s4logger`.
pub mod Platform
pub mod Sinks
pub mod Maps
pub mod Files
pub mod Opening
pub mod Halves
pub mod Console
pub mod Reopening
pub mod Redirect
pub mod Free
pub mod ReturningParts
pub mod Returning
pub mod Messages
pub mod Routing
pub mod ListRegistry
mod Examples
