-- ===== src/Json.antt =====
-- source/common/s4json_util.cpp
pub mod Search
pub mod Grammar
mod Examples
