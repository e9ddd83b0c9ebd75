-- ===== src/Exceptions.antt =====
-- include/common/s4exceptions.h: the exceptions of the library.
pub mod Classes
pub mod Reading
