-- ===== src/Lib.antt =====
-- educpu16: a 16-bit processor in C, with a two-pass assembler and an emulator. The assembler
-- turns source lines into a memory image, the emulator loads an image at address 0 and runs it;
-- they share only assembler/isa.h. Encoder/Step is about both: the processor that runs what the
-- encoder writes. In the assembler a source file is split into lines, each line into tokens, and
-- these are parsed; the first pass gives each parsed line its address and fills the symbol table,
-- the second encodes the lines into the image with the labels resolved, and the image is written.
-- Passes/Program goes the whole way from the lines of a source to a cycle of the processor,
-- Passes/Runs to any number of cycles, and Passes/Listing from programs of the source language,
-- given as data.
--
-- Which file models which part:
-- - Prelude: names that all modules share, Boolean tests (Prelude/Tests), arrays as lists
--   (Prelude/Lists), integers over the native numbers (Prelude/Int), the bits of words
--   (Prelude/Bits).
-- - Isa: assembler/isa.h, the opcodes, bounds, memory map and INSTR_* macros; Isa/Fields reads the
--   macros as quotients and remainders.
-- - Emulator/Cpu: emulator/cpu.h with cpu_init and cpu_reset of emulator/cpu.c; Cpu/Printing:
--   cpu_dump, with the conversions of printf in Assembler/Text/Printf. Emulator/Run: cpu_run.
-- - Emulator/Alu: emulator/alu.c (set_flag, update_zn_flags, alu_execute). Its laws are in
--   Alu/Arithmetic and Alu/Logic, on the lemmas of Alu/Flags and Alu/Range.
-- - Emulator/Memory: emulator/memory.c (mem_read, mem_write, mem_load), Memory/Dump mem_dump.
-- - Emulator/Control: cpu_step of emulator/control.c, cut into fetch, execute_op for the switch
--   down to CMP and execute_flow for the rest; the longer cases have a function each.
--   Control/Invariant, Branches, Calls and Count hold what is proved of it.
-- - Assembler/Text: C strings and the string.h functions that are called. Assembler/Errors:
--   assembler/errors.h; Errors/Names: asm_error_name of assembler/assembler.c. Assembler/Syntax:
--   the operands and instructions of assembler/parser.h.
-- - Assembler/Encoder: assembler/encoder.c. Encoder/Formats is about encode_R, encode_I and
--   encode_J, Encoder/Operands about the mnemonic table and operands, Encoder/Reads about the
--   words that encode_instr makes, Encoder/Accepts about what it encodes. Encoder/Meaning says
--   what each mnemonic means on the machine, without the code's tables and switches,
--   Encoder/Table has the mnemonic table against it, Encoder/Execute the switches of the emulator,
--   and Encoder/Step the processor that runs the encoded word.
-- - Assembler/Symtable: assembler/symtable.c. Symtable/Slots is about where symbols stand, Fill
--   about a table with one more, Insert about symtable_insert, Long about names that do not fit,
--   Printing has symtable_dump.
-- - Assembler/Numbers: parse_number of assembler/parser.c with strtol; Numbers/Literals is about
--   what it reads. Assembler/Parser: the rest of assembler/parser.c, with the tokens of
--   assembler/lexer.h; Parser/Shape and Parser/Line are about what it leaves in a parsed line.
--   Parser/Source has the lines of the source language and the tokens that they are written with,
--   Parser/ReadBack parses these, Parser/Printed goes from the printed line.
-- - Emulator/Startup: emulator/main.c between the options and the run, and the range of --dump;
--   Startup/Load is about what is loaded, Startup/Reachable about the machines of a run,
--   Startup/DumpRange about the end of the dump.
-- - Assembler/Lexer: assembler/lexer.c; Lexer/Ends is about its rounds and bounds, Lexer/Print
--   prints tokens, Lexer/ReadBack reads them back. Lexer/Numbering and Parser/Numbering are about
--   the line numbers.
-- - Assembler/Passes: line_size, resolve_operand and assemble_file of assembler/assembler.c on the
--   lines of a source, cut into place for what the first pass does with a parsed line, pass2_line
--   for the second and finish for the file. Passes/Emit is about the words of one line
--   (Emit/Words: that they are words), Passes/Image about the image, Passes/Layout and
--   Passes/Addresses about the first pass and its addresses, Passes/Symbols with Symbols/Labels
--   about the symbol table after it, Passes/Targets about the labels in operands, Passes/Names
--   about an instruction with all its labels replaced, Passes/Written
--   about when a file is written, Passes/Output and Passes/Program about what the emulator loads
--   from it, Passes/Runs about its run against a reading of the source. Symbols/Accepts is about
--   the symbols that the first pass takes, Passes/Complete about which sources are assembled.
--   Passes/Reports has what assemble_file reports, Reports/Counts and Reports/Lines are about
--   these reports. Passes/Listing is about programs of the source language that are printed:
--   Listing/Words has the words of their statements, Listing/Symbols their labels and constants,
--   Listing/Complete says which are assembled, Listing/Runs what an assembled one does.
-- - Assembler/Source: source_read and assemble_file on the bytes of the source file; Source/Lines
--   is about any file, Source/Files about files written line by line and about long lines.
-- - Assembler/Driver: assembler/main.c; Driver/Paths is about derive_output_path,
--   Driver/Arguments about the arguments, Driver/Runs about main.
-- - Emulator/Command: emulator/main.c, its options, the three ways to run and main; Command/Modes
--   is about the ways to run, Command/Arguments and Command/Given about the options, Command/Ends
--   and Command/Outcomes about main, Command/Addresses about parse_hex_addr, also on addresses as
--   the dumps print them.
-- - Emulator/Tests, Emulator/StartupTests, Emulator/CommandTests, Assembler/Tests,
--   Assembler/ParserTests, Assembler/LexerTests, Assembler/PassesTests, Assembler/ListingTests,
--   Assembler/ReportsTests and Assembler/SourceTests: runs on concrete inputs.
--
-- How the code is read. A uint16_t, uint32_t or uint64_t is a native number with its wrap-around
-- written as a remainder; an int is an integer of Prelude/Int without bounds, in places where the
-- code's values are far from the limits of int32_t. A pointer that a function returns a value
-- through is a result; a static variable is a field of a record that is passed on: Bus for the
-- memory with the standard streams and the clock, SymTable for the symbol table, Machine for the
-- processor with its bus and its reports on standard error. The guards against null pointers are
-- left out, since every caller passes the address of an object. A string is the list of its bytes
-- without the terminator. The clock is a function of the number of calls, of which nothing is
-- assumed.
--
-- Bounds and fuel. cpu_run, the loops of --step and --trace and mem_dump may run forever, so they
-- take fuel and return none when it runs out; for cpu_run, more fuel than the cycles to the halt
-- is enough, for mem_dump one round for eight words and one more, within the bound that its
-- theorem states. The outer loop of the lexer has one round of fuel more than the line has bytes,
-- the loop of source_read as many as the file has, which is enough since every round takes a byte.
-- The other loops of the assembler are on the list that they go over; the loop of .ascii has
-- str_len / 2 + 1 rounds, the even numbers up to str_len. The digits of printf take twenty rounds,
-- enough for 64 bits. The loops of the symbol table are on the 256 probes that the code makes,
-- that of mem_load on the words left.
--
-- Not modelled: the usage texts, the text of error messages, the listing of the assembler, failing
-- allocations, and files that fail while they are read or written.
pub mod Prelude
pub mod Isa
pub mod Emulator
pub mod Assembler
