-- ===== src/Assembler/Symtable/Printing.antt =====
-- symtable_dump of assembler/symtable.c: the bytes that it prints.
use educpu.Prelude.{List, [], ◌∷◌, ◌++◌, if◌then◌else◌}
use educpu.Assembler.Text.{Text, codes}
use educpu.Assembler.Text.Printf.{hex_word, decimal, pad_right}
use educpu.Assembler.Symtable.{Symbol, SymTable}

-- The loop over the slots.
unfoldable pub symbol_lines : List Symbol → Text
symbol_lines [] = []
symbol_lines (s ∷ ss) =
    let rest = symbol_lines ss in
    if s.used
    then codes "  " ++ pad_right 32 s.name ++ codes " = 0x" ++ hex_word s.addr ++ b'\n' ∷ rest
    else rest

unfoldable pub symtable_dump : SymTable → Text
unfolding symbol_lines
symtable_dump st =
    codes "-- symbol table ("
    ++ decimal st.count
    ++ codes " entries) --"
    ++ b'\n' ∷ symbol_lines st.table
