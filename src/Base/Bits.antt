-- ===== src/Base/Bits.antt =====
-- Laws of `&`, `|` and `^` at variables: one equation for the lowest digit, then fields and masks.
pub mod Step
pub mod Fields
