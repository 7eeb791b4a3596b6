-- ===== src/Str.antt =====
-- Strings: src/str.cc, and the match with wildcards of src/fastring.cc. A string is the list of its
-- bytes.
pub mod Split
pub mod Pieces
pub mod Searches
pub mod Match
pub mod Glob
pub mod Stars
pub mod Since
pub mod Greedy
pub mod Wildcards
pub mod Number
pub mod Ranges
mod Tests
