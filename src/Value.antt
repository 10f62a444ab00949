-- ===== src/Value.antt =====
-- ops-enm-parser/src/main/cpp/parse/OZT_Value.C: the values of script variables. A value is a
-- text; as a number it is read by `atol`, with a 64-bit `long` and a 32-bit `int` (the program is
-- built for x86_64), and printed in decimal or hexadecimal.
pub mod Digits
pub mod Words
pub mod Convert
pub mod Arith
pub mod Compare
pub mod Justify
