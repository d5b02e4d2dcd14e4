-- ===== src/Lexer.antt =====
-- lexer/: the input stream, the lexer's state, and `lex` with its helpers.
pub mod Stream
pub mod State
pub mod Scan
pub mod Operators
pub mod Lex
pub mod Comments
pub mod Reserved
pub mod Words
pub mod Strings
pub mod Symbols
mod Tests
