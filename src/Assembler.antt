-- ===== src/Assembler.antt =====
-- The assembler of assembler/: texts and errors, the operands and instructions of the parser's
-- header, number literals and lines (parser.c), the lexer (lexer.c), the instruction encoder
-- (encoder.c), the symbol table (symtable.c), the two passes and the source file (assembler.c) and the
-- command line (main.c).
pub mod Text
pub mod Errors
pub mod Syntax
pub mod Numbers
pub mod Parser
pub mod Lexer
pub mod Encoder
pub mod Symtable
pub mod Passes
pub mod Source
pub mod Driver
mod Tests
mod ParserTests
mod LexerTests
mod PassesTests
mod ListingTests
mod ReportsTests
mod SourceTests
