-- ===== src/FileSearch.antt =====
-- source/common/s4filesystem.cpp: `search_file`.
pub mod Search
pub mod Listing
mod Examples
