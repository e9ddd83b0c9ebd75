-- ===== src/Url.antt =====
-- include/network/parse_url.h
pub mod Parse
pub mod Spelling
pub mod Parts
mod Examples
