-- ===== src/Json.antt =====
-- Json values: include/co/json.h and src/json.cc. The children model the text of values, the
-- parser, and the operations on values.
pub mod Tables
pub mod Value
pub mod Print
pub mod Array
pub mod Pairs
pub mod Members
pub mod Scan
pub mod Number
pub mod Machine
pub mod Progress
pub mod Stacks
pub mod Safety
pub mod Escapes
pub mod Strings
pub mod Digits
pub mod Integers
pub mod Text
pub mod Plain
pub mod Starts
pub mod Reach
pub mod RoundTrip
mod Tests
