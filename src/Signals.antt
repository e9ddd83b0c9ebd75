-- ===== src/Signals.antt =====
-- include/common/s4signalhandle.h and source/common/s4signalhandle.cpp: `signalhandler_t`.
pub mod Handler
pub mod Catching
mod Examples
