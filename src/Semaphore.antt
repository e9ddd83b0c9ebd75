-- ===== src/Semaphore.antt =====
-- include/common/s4semaphore.h, and the threads of application/test_semaphore.cpp that it brings together.
pub mod Counter
pub mod Calls
pub mod Workers
pub mod Barrier
pub mod WorkerSteps
pub mod MainSteps
pub mod Safety
pub mod Measure
pub mod Ending
pub mod Slots
mod Examples
