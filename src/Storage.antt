-- ===== src/Storage.antt =====
-- src/storage.c: the tables, as files of rows.
pub mod Csv
pub mod Values
pub mod Where
pub mod Tables
pub mod Loading
pub mod Rewrite
pub mod Wide
pub mod Remaining
pub mod Like
pub mod Groups
pub mod Order
pub mod Exchange
pub mod Comparison
pub mod CellOrder
pub mod Sorted
pub mod Insert
pub mod Placed
pub mod SetCells
pub mod Assign
pub mod Columns
pub mod CsvRead
pub mod CsvParse
mod Tests
