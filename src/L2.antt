-- ===== src/L2.antt =====
-- source/network/L2_udp_recver_th.cpp and L2_udp_recver_th_native.cpp
pub mod Layout
pub mod Bonds
pub mod Stats
pub mod Wire
pub mod Receiver
pub mod Datagram
pub mod Refinement
pub mod Bounds
pub mod Counting
pub mod Commands
pub mod Codes
pub mod Queue
pub mod Control
pub mod Balance
mod Examples
mod ControlExamples
