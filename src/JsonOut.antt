-- ===== src/JsonOut.antt =====
-- src/json_out.c: the strings of the JSON output.
pub mod Strings
pub mod ReadBack
mod Tests
