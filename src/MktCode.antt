-- ===== src/MktCode.antt =====
-- source/common/s4mktCode.cpp and include/common/s4mktCode.h: the four spellings of a security's
-- code. `mktCodeI_t` and `pureCodeI_t` are uint32_t, so numbers below 2 ^ 32; a string is the
-- list of its bytes. `throw CodeNameConvertError` is `err`, with the message's first words as the
-- error; a read behind the terminating NUL of a string is `out_of_bounds`.
pub mod Convert
pub mod Classify
pub mod ConvertLaws
pub mod StringLaws
pub mod ClassifyLaws
mod Examples
