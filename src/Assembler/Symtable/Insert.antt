-- ===== src/Assembler/Symtable/Insert.antt =====
-- Insertion against the finite map that a table stands for.
use mathlib.Core.Path.{subst}
use native.Mathlib.Decide.{dec_lt}
use educpu.Prelude.{
  ℕ, zero, suc, ◌+◌, ◌-◌, ◌%◌, ◌≤◌, ◌<◌, ◌≡◌, ◌≢◌, ◌⊎◌, inl, inr, refl, sym, ◌∙◌, ap, arith, true,
  false, [], ◌∷◌, replicate, Option, none, some, length, leb, if◌then◌else◌, if_yes, if_not,
  Bool-cases, Option-cases,
}
use educpu.Assembler.Errors.{Result, ok, err, duplicate_label}
use educpu.Assembler.Text.{Text, str_eq, str_eq_iff}
use educpu.Assembler.Symtable.{
  Symbol, SymTable, sym_capacity, sym_name_max, slot, free_slot, hash_name, probe_at, fill,
  insert_loop, symtable_insert, symtable_lookup, symtable_reset,
}
use educpu.Assembler.Symtable.Fill.{differ, IsTable, count_used_full, fill-IsTable, fill-lookup}
use educpu.Assembler.Symtable.Slots.{Passes, Stands, Holds, symtable_lookup-Holds}

-- The three ways in which the loop ends.
Duplicate : SymTable → Text → Result SymTable → Type 0
Duplicate st name r =
    (i : ℕ) × Holds st.table name i (slot st.table i).addr × (r ≡ err duplicate_label)

Fills : SymTable → ℕ → Text → ℕ → Result SymTable → Type 0
Fills st h name addr r =
    (d : ℕ) × (d < sym_capacity)
    × ((e : ℕ) → e < d → Passes st.table name (probe_at h e))
    × ((slot st.table (probe_at h d)).used ≡ false)
    × (r ≡ ok (fill st (probe_at h d) name addr))

Full : SymTable → ℕ → Text → Type 0
Full st h name = (e : ℕ) → e < sym_capacity → Passes st.table name (probe_at h e)

abbrev Ends : SymTable → ℕ → Text → ℕ → Result SymTable → Type 0
Ends st h name addr r = Duplicate st name r ⊎ Fills st h name addr r ⊎ Full st h name

Passes_next :
    (P : ℕ → Type 0) (probe : ℕ)
    → ((e : ℕ) → e < probe → P e)
    → P probe
    → (e : ℕ) → e < probe + 1
    → P e
Passes_next P probe below here e lt = elim (dec_lt e probe) [
  | yes before ↦ below e before
  | no after ↦ let same : e ≡ probe = omega arith in rw same here
]

insert_loop-cases :
    (left probe h : ℕ) (name : Text) (addr : ℕ) (st : SymTable)
    → probe + left ≡ sym_capacity
    → ((e : ℕ) → e < probe → Passes st.table name (probe_at h e))
    → Ends st h name addr (insert_loop left probe h name addr st)
unfolding insert_loop Duplicate Fills Full
insert_loop-cases zero probe h name addr st total below = inr (inr (λ e lt. below e (omega arith)))
insert_loop-cases (suc left) probe h name addr st total below =
    elim (Bool-cases (slot st.table (probe_at h probe)).used) [
      | inr free ↦ inr (inl (probe, omega arith, below, free, if_not _ _ free))
      | inl taken ↦ elim (Bool-cases (str_eq (slot st.table (probe_at h probe)).name name)) [
        | inl same ↦ inl (
          probe_at h probe,
          record { used = taken; named = (str_eq_iff _ _).0 same; at = refl },
          if_yes _ _ taken ∙ if_yes _ _ same,
        )
        | inr other ↦
            let differs : (slot st.table (probe_at h probe)).name ≢ name =
              λ same. differ other ((str_eq_iff _ _).1 same) in
            subst (Ends st h name addr) (sym (if_yes _ _ taken ∙ if_not _ _ other)) (
              insert_loop-cases left (probe + 1) h name addr st (omega arith) (
                Passes_next (λ e. Passes st.table name (probe_at h e)) probe below
                  (taken, differs)))
      ]
    ]

-- A table with room is not full: each slot is some probe of every name.
room_left :
    (st : SymTable) (h : ℕ) (name : Text) → IsTable st → st.count < sym_capacity → ¬ Full st h name
unfolding Full
room_left st h name t room full =
    absurd (omega (arith, count_used_full st.table all_used, t.slots, t.counted))
  where
    all_used : (i : ℕ) → i < length st.table → (slot st.table i).used ≡ true
    all_used i lt =
        let e = (i + 256 - h % 256) % 256 in
        let lands : probe_at h e ≡ i = omega (arith, t.slots) in
        rw lands at (full e (omega arith)).0

-- What an insertion promises, by what a lookup of the name finds before it.
unfoldable pub Inserts : SymTable → Text → ℕ → Option ℕ → Type 0
Inserts st name addr (some a) = symtable_insert st name addr ≡ err duplicate_label
Inserts st name addr none =
    (st' : SymTable) × (symtable_insert st name addr ≡ ok st')
    × IsTable st'
    × (st'.count ≡ st.count + 1)
    × ((other : Text)
        → symtable_lookup st' other
          ≡ (if str_eq name other then some addr else symtable_lookup st other))

fill-lookup_any :
    (st : SymTable) (t : IsTable st) (d : ℕ) (c : ℕ) (cs : Text) (addr : ℕ)
    → (near : d < sym_capacity)
    → (passes : (e : ℕ) → e < d → Passes st.table (c ∷ cs) (probe_at (hash_name (c ∷ cs)) e))
    → (free : (slot st.table (probe_at (hash_name (c ∷ cs)) d)).used ≡ false)
    → (short : length (c ∷ cs) ≤ sym_name_max) → (other : Text)
    → symtable_lookup (fill st (probe_at (hash_name (c ∷ cs)) d) (c ∷ cs) addr) other
      ≡ (if str_eq (c ∷ cs) other then some addr else symtable_lookup st other)
unfolding symtable_lookup str_eq
fill-lookup_any st t d c cs addr near passes free short [] = refl
fill-lookup_any st t d c cs addr near passes free short (o ∷ os) =
    fill-lookup st t d (c ∷ cs) addr near passes free short (o ∷ os) (λ e. absurd (cc))

-- A name whose probes come to a free slot is not in the table.
lookup_free :
    (st : SymTable) (t : IsTable st) (d : ℕ) (name : Text)
    → name ≢ []
    → ((e : ℕ) → e < d → Passes st.table name (probe_at (hash_name name) e))
    → (slot st.table (probe_at (hash_name name) d)).used ≡ false
    → symtable_lookup st name ≡ none
lookup_free st t d name some_name passes free = elim (Option-cases (symtable_lookup st name)) [
  | inl e ↦ e
  | inr (a, e) ↦
      let (i, h) = (symtable_lookup-Holds st name a some_name t.reachable).0 e in
      let s : Stands st.table name i = rw h.named at (t.reachable i h.used) in
      let taken : (slot st.table (probe_at (hash_name name) s.distance)).used ≡ true =
        rw s.place at h.used in
      elim (dec_lt s.distance d) [
        | yes before ↦ absurd ((passes s.distance before).1 (rw s.place at h.named))
        | no not_before ↦ elim (dec_lt d s.distance) [
          | yes after ↦ absurd (differ free (s.passes d after).0)
          | no not_after ↦
              let same : s.distance ≡ d = omega arith in absurd (differ free (rw same at taken))
        ]
      ]
]

count-fill :
    (st : SymTable) (i : ℕ) (name : Text) (addr : ℕ) → (fill st i name addr).count ≡ st.count + 1
unfolding fill
count-fill st i name addr = refl

loop-Inserts :
    (st : SymTable) (c : ℕ) (cs : Text) (addr : ℕ) (r : Result SymTable)
    → IsTable st
    → length (c ∷ cs) ≤ sym_name_max
    → st.count < sym_capacity
    → symtable_insert st (c ∷ cs) addr ≡ r
    → Ends st (hash_name (c ∷ cs)) (c ∷ cs) addr r
    → Inserts st (c ∷ cs) addr (symtable_lookup st (c ∷ cs))
unfolding Duplicate Fills Inserts
loop-Inserts st c cs addr r t short room starts (inl (i, h, refused)) =
    let found =
      (symtable_lookup-Holds st (c ∷ cs) (slot st.table i).addr (λ e. absurd (cc)) t.reachable).1
        (i, h) in
    rw found (starts ∙ refused)
loop-Inserts st c cs addr r t short room starts (inr (inr full)) =
    absurd (room_left st _ _ t room full)
loop-Inserts st c cs addr r t short room starts (inr (inl (d, near, passes, free, filled))) =
    rw (lookup_free st t d (c ∷ cs) (λ e. absurd (cc)) passes free) (
      fill st (probe_at (hash_name (c ∷ cs)) d) (c ∷ cs) addr,
      starts ∙ filled,
      fill-IsTable st t d (c ∷ cs) addr near passes free short,
      count-fill st _ _ addr,
      λ other. fill-lookup_any st t d c cs addr near passes free short other,
    )

-- A table that keeps its invariant and is not full refuses a name of 1 to 63 bytes if it has that
-- name, and otherwise takes it: the new table keeps the invariant, counts one symbol more, finds the
-- name at its address and every other as before.
pub symtable_insert-lookup :
    (st : SymTable) (name : Text) (addr : ℕ)
    → IsTable st
    → name ≢ []
    → length name ≤ sym_name_max
    → st.count < sym_capacity
    → Inserts st name addr (symtable_lookup st name)
unfolding symtable_insert
symtable_insert-lookup st [] addr t some_name short room = absurd (some_name refl)
symtable_insert-lookup st (c ∷ cs) addr t some_name short room =
    loop-Inserts st c cs addr _ t short room starts (
      insert_loop-cases sym_capacity 0 (hash_name (c ∷ cs)) (c ∷ cs) addr st refl
        (λ e lt. absurd (omega arith)))
  where
    starts :
        symtable_insert st (c ∷ cs) addr
        ≡ insert_loop sym_capacity 0 (hash_name (c ∷ cs)) (c ∷ cs) addr st
    starts = if_not {b = leb sym_capacity st.count} _ _ (ground arith)

pub all_free : (n i : ℕ) → slot (replicate n free_slot) i ≡ free_slot
all_free zero i = refl
all_free (suc n) zero = refl
all_free (suc n) (suc i) = all_free n i

pub symtable_reset-IsTable : IsTable symtable_reset
unfolding symtable_reset
symtable_reset-IsTable = record {
  slots = refl;
  counted = refl;
  reachable =
      λ i taken. absurd (differ (ap (λ (s : Symbol). s.used) (all_free sym_capacity i)) taken);
}
