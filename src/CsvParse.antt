-- ===== src/CsvParse.antt =====
-- api/services/csv_parse.py: parsing, column names, type inference, casts and the preview.
pub mod Lexer
pub mod Columns
pub mod Types
pub mod Patterns
pub mod Cast
pub mod Preview
pub mod Ragged
