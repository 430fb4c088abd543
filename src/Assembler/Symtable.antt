-- ===== src/Assembler/Symtable.antt =====
-- assembler/symtable.c: the symbol table, a hash table of 256 slots with linear probing and FNV-1a.
-- The static variables `table` and `count` are a record that the functions take and return. A
-- refused insertion returns only its error, since it has changed nothing. SYM_NOT_FOUND is `none`.
pub mod Slots
pub mod Fill
pub mod Insert
pub mod Long
pub mod Printing
use educpu.Prelude.{
  ℕ, zero, suc, ◌+◌, ◌*◌, ◌%◌, ◌^◌, Bool, true, false, List, [], ◌∷◌, Option, none, some, bit_xor,
  get_or, set, replicate, leb, if◌then◌else◌,
}
use educpu.Assembler.Errors.{Result, ok, err, duplicate_label, internal}
use educpu.Assembler.Text.{Text, str_eq, take}

abbrev pub sym_capacity : ℕ
sym_capacity = 256

abbrev pub sym_name_max : ℕ
sym_name_max = 63

pub record Symbol : Type 0 where
  pub name : Text
  pub addr : ℕ
  pub used : Bool

pub record SymTable : Type 0 where
  pub table : List Symbol
  pub count : ℕ

-- A slot of zero bytes.
abbrev pub free_slot : Symbol
free_slot = record { name = []; addr = 0; used = false }

abbrev pub slot : List Symbol → ℕ → Symbol
slot table i = get_or table i free_slot

unfoldable pub hash_loop : ℕ → Text → ℕ
hash_loop h [] = h
hash_loop h (c ∷ s) = hash_loop (bit_xor h c * 16777619 % 2 ^ 32) s

unfoldable pub hash_name : Text → ℕ
unfolding hash_loop
hash_name = hash_loop 2166136261

unfoldable pub symtable_reset : SymTable
symtable_reset = record { table = replicate sym_capacity free_slot; count = 0 }

-- `(h + (uint32_t)probe) % SYM_CAPACITY`
abbrev pub probe_at : ℕ → ℕ → ℕ
probe_at h probe = (h + probe) % 2 ^ 32 % sym_capacity

-- The assignments to a free slot.
unfoldable pub fill : SymTable → ℕ → Text → ℕ → SymTable
fill st idx name addr = record {
  table = set st.table idx (record { name = take sym_name_max name; addr = addr; used = true });
  count = st.count + 1;
}

-- The loop of `symtable_insert` from `probe` on, with `left` probes to go.
unfoldable pub insert_loop : ℕ → ℕ → ℕ → Text → ℕ → SymTable → Result SymTable
insert_loop zero probe h name addr st = err internal
insert_loop (suc left) probe h name addr st =
    let idx = probe_at h probe in
    let rest = insert_loop left (probe + 1) h name addr st in
    if (slot st.table idx).used
    then (if str_eq (slot st.table idx).name name then err duplicate_label else rest)
    else ok (fill st idx name addr)

unfoldable pub symtable_insert : SymTable → Text → ℕ → Result SymTable
unfolding insert_loop
symtable_insert st [] addr = err internal
symtable_insert st (c ∷ cs) addr =
    if leb sym_capacity st.count
    then err internal
    else insert_loop sym_capacity 0 (hash_name (c ∷ cs)) (c ∷ cs) addr st

-- The loop of `symtable_lookup`.
unfoldable pub lookup_loop : ℕ → ℕ → ℕ → Text → List Symbol → Option ℕ
lookup_loop zero probe h name table = none
lookup_loop (suc left) probe h name table =
    let s = slot table (probe_at h probe) in
    let rest = lookup_loop left (probe + 1) h name table in
    if s.used then (if str_eq s.name name then some s.addr else rest) else none

unfoldable pub symtable_lookup : SymTable → Text → Option ℕ
unfolding lookup_loop
symtable_lookup st [] = none
symtable_lookup st (c ∷ cs) = lookup_loop sym_capacity 0 (hash_name (c ∷ cs)) (c ∷ cs) st.table

abbrev pub symtable_count : SymTable → ℕ
symtable_count st = st.count
