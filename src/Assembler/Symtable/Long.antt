-- ===== src/Assembler/Symtable/Long.antt =====
-- assembler/symtable.c with names of more than SYM_NAME_MAX bytes, which a token may have: the copy
-- of `strncpy` is cut, the comparisons of a lookup are not.
use educpu.Prelude.{
  ℕ, zero, suc, ◌+◌, ◌≤◌, ◌<◌, ◌≡◌, ◌∙◌, refl, sym, ap, arith, inl, inr, List, [], ◌∷◌, none,
  length, set, leb, if_yes, if_not, Bool-cases, Option-cases,
}
use educpu.Assembler.Errors.{ok}
use educpu.Assembler.Text.{length-take, Text, str_eq}
use educpu.Assembler.Symtable.{
  Symbol, SymTable, sym_capacity, sym_name_max, slot, hash_name, probe_at, fill, insert_loop,
  symtable_insert, symtable_lookup,
}
use educpu.Assembler.Symtable.Slots.{lookup_loop-Holds}

-- No slot holds a longer name than fits.
abbrev pub HasShortNames : SymTable → Type 0
HasShortNames st = (i : ℕ) → length (slot st.table i).name ≤ sym_name_max

set-short :
    (table : List Symbol) (idx i : ℕ) (s : Symbol)
    → ((j : ℕ) → length (slot table j).name ≤ sym_name_max)
    → length s.name ≤ sym_name_max
    → length (slot (set table idx s) i).name ≤ sym_name_max
set-short [] idx i s short new = short i
set-short (x ∷ table) zero zero s short new = new
set-short (x ∷ table) zero (suc i) s short new = short (suc i)
set-short (x ∷ table) (suc idx) zero s short new = short zero
set-short (x ∷ table) (suc idx) (suc i) s short new =
    set-short table idx i s (λ j. short (suc j)) new

fill-HasShortNames :
    (st : SymTable) (idx : ℕ) (name : Text) (addr : ℕ)
    → HasShortNames st
    → HasShortNames (fill st idx name addr)
unfolding fill
fill-HasShortNames st idx name addr short i =
    set-short st.table idx i _ short (length-take sym_name_max name)

insert_loop-HasShortNames :
    (left probe h : ℕ) (name : Text) (addr : ℕ) (st st' : SymTable)
    → HasShortNames st
    → insert_loop left probe h name addr st ≡ ok st'
    → HasShortNames st'
unfolding insert_loop
insert_loop-HasShortNames zero probe h name addr st st' short e = absurd (cc)
insert_loop-HasShortNames (suc left) probe h name addr st st' short e =
    elim (Bool-cases (slot st.table (probe_at h probe)).used) [
      | inr free ↦
          let same : fill st (probe_at h probe) name addr ≡ st' =
            (let p = sym (if_not _ _ free) ∙ e in cc) in
          rw (← same) (fill-HasShortNames st _ name addr short)
      | inl taken ↦ elim (Bool-cases (str_eq (slot st.table (probe_at h probe)).name name)) [
        | inl same ↦ let p = sym (if_yes _ _ taken ∙ if_yes _ _ same) ∙ e in absurd (cc)
        | inr other ↦
            insert_loop-HasShortNames left (probe + 1) h name addr st st' short
              (sym (if_yes _ _ taken ∙ if_not _ _ other) ∙ e)
      ]
    ]

-- A symbol inserted under a name of more than 63 bytes cannot be looked up again.
pub symtable_insert-long :
    (st st' : SymTable) (name : Text) (addr : ℕ)
    → HasShortNames st
    → sym_name_max < length name
    → symtable_insert st name addr ≡ ok st'
    → symtable_lookup st' name ≡ none
unfolding symtable_insert symtable_lookup
symtable_insert-long st st' [] addr short long e = refl
symtable_insert-long st st' (c ∷ cs) addr short long e =
    elim (Option-cases (symtable_lookup st' (c ∷ cs))) [
      | inl missing ↦ missing
      | inr (a, found) ↦
          let (i, h) =
            lookup_loop-Holds sym_capacity 0 (hash_name (c ∷ cs)) (c ∷ cs) st'.table a found in
          absurd (omega (arith, kept i, ap length h.named))
    ]
  where
    kept : HasShortNames st'
    kept = elim (Bool-cases (leb sym_capacity st.count)) [
      | inl full ↦ let p = sym (if_yes _ _ full) ∙ e in absurd (cc)
      | inr room ↦
          insert_loop-HasShortNames sym_capacity 0 (hash_name (c ∷ cs)) (c ∷ cs) addr st st' short
            (sym (if_not _ _ room) ∙ e)
    ]
