-- ===== src/Numbers.antt =====
-- include/types/s4convertors.h
pub mod Integers
pub mod DigitPairs
pub mod IntegerLaws
pub mod Reading
pub mod Doubles
pub mod DoubleTexts
pub mod DoubleGrammar
pub mod DoubleRoundTrip
mod Examples
