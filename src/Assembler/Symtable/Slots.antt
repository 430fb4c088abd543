-- ===== src/Assembler/Symtable/Slots.antt =====
-- Where a symbol stands, and that a lookup finds exactly the symbols that stand in the table.
use native.Mathlib.Decide.{dec_lt}
use educpu.Prelude.{
  ℕ, zero, suc, ◌+◌, ◌≤◌, ◌<◌, ◌≡◌, ◌≢◌, ◌↔◌, inl, inr, refl, ◌∙◌, ap, arith, true, List, [], ◌∷◌,
  some, if_yes, if_not, Bool-cases,
}
use educpu.Assembler.Text.{Text, str_eq, str_eq_iff, str_eq-ne}
use educpu.Assembler.Symtable.{
  Symbol, SymTable, sym_capacity, slot, hash_name, probe_at, lookup_loop, symtable_lookup,
}

-- A slot is taken by a symbol of another name.
abbrev pub Passes : List Symbol → Text → ℕ → Type 0
Passes table name i = ((slot table i).used ≡ true) × ((slot table i).name ≢ name)

-- Symbol `name` stands in slot `i`, `distance` probes from its home, past slots of other names.
pub record Stands (table : List Symbol) (name : Text) (i : ℕ) : Type 0 where
  pub distance : ℕ
  pub near : distance < sym_capacity
  pub place : i ≡ probe_at (hash_name name) distance
  pub passes : (e : ℕ) → e < distance → Passes table name (probe_at (hash_name name) e)

-- Slot `i` holds `name` at `addr`.
pub record Holds (table : List Symbol) (name : Text) (i addr : ℕ) : Type 0 where
  pub used : (slot table i).used ≡ true
  pub named : (slot table i).name ≡ name
  pub at : (slot table i).addr ≡ addr

-- Every symbol stands where a lookup from its home comes by.
abbrev pub IsReachable : List Symbol → Type 0
IsReachable table = (i : ℕ) → (slot table i).used ≡ true → Stands table (slot table i).name i

pub lookup_loop-Holds :
    (left probe h : ℕ) (name : Text) (table : List Symbol) (a : ℕ)
    → lookup_loop left probe h name table ≡ some a
    → (i : ℕ) × Holds table name i a
unfolding lookup_loop
lookup_loop-Holds zero probe h name table a e = absurd (cc)
lookup_loop-Holds (suc left) probe h name table a e =
    elim (Bool-cases (slot table (probe_at h probe)).used) [
      | inr free ↦ absurd (ground arith)
      | inl taken ↦ elim (Bool-cases (str_eq (slot table (probe_at h probe)).name name)) [
        | inl same ↦ (
          probe_at h probe,
          record { used = taken; named = (str_eq_iff _ _).0 same; at = ground arith },
        )
        | inr other ↦ lookup_loop-Holds left (probe + 1) h name table a (ground arith)
      ]
    ]

lookup_loop-Stands :
    (left probe h : ℕ) (name : Text) (table : List Symbol) (distance a : ℕ)
    → probe ≤ distance
    → distance < probe + left
    → ((e : ℕ) → e < distance → Passes table name (probe_at h e))
    → Holds table name (probe_at h distance) a
    → lookup_loop left probe h name table ≡ some a
unfolding lookup_loop
lookup_loop-Stands zero probe h name table distance a lo hi passes holds = absurd (omega arith)
lookup_loop-Stands (suc left) probe h name table distance a lo hi passes holds =
    elim (dec_lt probe distance) [
      | yes before ↦
          let (taken, other) = passes probe before in
          if_yes _ _ taken
          ∙ (if_not _ _ (str_eq-ne _ _ other)
              ∙ lookup_loop-Stands left (probe + 1) h name table distance a (omega arith)
                  (omega arith) passes holds)
      | no after ↦
          let here : distance ≡ probe = omega arith in
          let found : Holds table name (probe_at h probe) a = rw here at holds in
          if_yes _ _ found.used ∙ (if_yes _ _ ((str_eq_iff _ _).1 found.named) ∙ ap some found.at)
    ]

-- A lookup of a name of the table's words finds its address exactly when some slot holds it.
pub symtable_lookup-Holds :
    (st : SymTable) (name : Text) (a : ℕ)
    → name ≢ []
    → IsReachable st.table
    → (symtable_lookup st name ≡ some a) ↔ ((i : ℕ) × Holds st.table name i a)
unfolding symtable_lookup
symtable_lookup-Holds st [] a ne reach = absurd (ne refl)
symtable_lookup-Holds st (c ∷ cs) a ne reach = (
  lookup_loop-Holds sym_capacity 0 (hash_name (c ∷ cs)) (c ∷ cs) st.table a,
  λ found. stands found.0 found.1,
)
  where
    stands :
        (i : ℕ)
        → Holds st.table (c ∷ cs) i a
        → lookup_loop sym_capacity 0 (hash_name (c ∷ cs)) (c ∷ cs) st.table ≡ some a
    stands i holds =
        let s : Stands st.table (c ∷ cs) i = rw holds.named at (reach i holds.used) in
        lookup_loop-Stands sym_capacity 0 (hash_name (c ∷ cs)) (c ∷ cs) st.table s.distance a
          (omega arith) (omega (arith, s.near)) s.passes (rw s.place at holds)
