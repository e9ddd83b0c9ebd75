-- ===== src/SimpleQ.antt =====
-- include/queue: the producer-consumer queue with recycled frames.
pub mod Platform
pub mod Pool
pub mod Client
pub mod Making
pub mod Hands
pub mod Ownership
pub mod Keeping
pub mod Lasting
pub mod Single
pub mod Tokens
pub mod Order
pub mod Growth
pub mod Blocks
pub mod Disjoint
pub mod Frames
pub mod ClassArray
pub mod ListPlatform
mod Examples
mod OrderExamples
