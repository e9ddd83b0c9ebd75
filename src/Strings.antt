-- ===== src/Strings.antt =====
-- source/common/s4string.cpp
pub mod Find
pub mod Edit
pub mod Pieces
pub mod Commas
mod Examples
