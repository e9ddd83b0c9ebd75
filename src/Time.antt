-- ===== src/Time.antt =====
-- source/common/s4time.cpp
pub mod Dates
pub mod Calendar
pub mod Months
pub mod DayNumber
pub mod DateLaws
pub mod Offtime
pub mod YearRounds
pub mod YearLoop
pub mod MonthLoop
pub mod RoundTrip
pub mod Texts
pub mod TextLaws
pub mod Stamps
mod Examples
