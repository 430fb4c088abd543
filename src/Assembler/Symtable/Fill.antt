-- ===== src/Assembler/Symtable/Fill.antt =====
-- A table with one more symbol: its slots, its invariant and its lookups.
use native.Mathlib.Decide.{ℕ_discrete}
use educpu.Prelude.{
  ℕ, zero, suc, ◌+◌, ◌≤◌, ◌<◌, ◌≡◌, ◌≢◌, ◌↔◌, inl, inr, refl, sym, ◌∙◌, ap, arith, Bool, true,
  false, List, [], ◌∷◌, Option, none, some, length, length-set, get_or-set, set, ◌==◌,
  if◌then◌else◌, if_yes, if_not, Bool-cases,
}
use educpu.Assembler.Text.{Text, str_eq, str_eq_iff, take, take_all}
use educpu.Assembler.Symtable.{
  Symbol, SymTable, sym_capacity, sym_name_max, slot, free_slot, hash_name, probe_at, fill,
  symtable_lookup,
}
use educpu.Assembler.Symtable.Slots.{Passes, Stands, Holds, IsReachable, symtable_lookup-Holds}

abbrev pub count_used : List Symbol → ℕ
count_used [] = 0
count_used (s ∷ ss) = (if s.used then 1 else 0) + count_used ss

-- The table has its 256 slots, `count` counts the used ones, and every symbol can be reached.
pub record IsTable (st : SymTable) : Type 0 where
  pub slots : length st.table ≡ sym_capacity
  pub counted : count_used st.table ≡ st.count
  pub reachable : IsReachable st.table

count_used-le : (ss : List Symbol) → count_used ss ≤ length ss
count_used-le [] = omega arith
count_used-le (s ∷ ss) = ground (arith, count_used-le ss)

pub IsTable-count : (st : SymTable) → IsTable st → st.count ≤ sym_capacity
IsTable-count st t = omega (arith, t.slots, t.counted, count_used-le st.table)

pub count_used_full :
    (ss : List Symbol)
    → ((i : ℕ) → i < length ss → (slot ss i).used ≡ true)
    → count_used ss ≡ length ss
count_used_full [] h = refl
count_used_full (s ∷ ss) h =
    ground (arith, h 0, count_used_full ss (λ i lt. h (suc i) (omega arith)))

pub count_used-set :
    (ss : List Symbol) (i : ℕ) (s : Symbol)
    → i < length ss
    → (slot ss i).used ≡ false
    → s.used ≡ true
    → count_used (set ss i s) ≡ count_used ss + 1
count_used-set [] i s lt free taken = absurd (omega arith)
count_used-set (x ∷ ss) zero s lt free taken = ground arith
count_used-set (x ∷ ss) (suc i) s lt free taken =
    omega (arith, count_used-set ss i s (omega arith) free taken)

pub differ : {b : Bool} → b ≡ false → b ≡ true → ⊥
differ p q = cc

-- Two lookups that succeed alike are equal.
option_ext :
    (x y : Option ℕ)
    → ((a : ℕ) → x ≡ some a → y ≡ some a)
    → ((a : ℕ) → y ≡ some a → x ≡ some a)
    → x ≡ y
option_ext none none f g = refl
option_ext none (some b) f g = g b refl
option_ext (some a) y f g = sym (f a refl)

module _ (st : SymTable) (t : IsTable st) (d : ℕ) (name : Text) (addr : ℕ) where
  abbrev idx : ℕ
  idx = probe_at (hash_name name) d

  abbrev new : Symbol
  new = record { name = take sym_name_max name; addr = addr; used = true }

  slot-fill :
      (j : ℕ) → slot (fill st idx name addr).table j ≡ (if idx == j then new else slot st.table j)
  unfolding fill
  slot-fill j = get_or-set st.table idx j new free_slot (omega (arith, t.slots))

  -- The slot that is filled, and any other.
  slot-fill_self : slot (fill st idx name addr).table idx ≡ new
  slot-fill_self = slot-fill idx ∙ if_yes {b = idx == idx} _ _ (ground arith)

  slot-fill_ne : (j : ℕ) → idx ≢ j → slot (fill st idx name addr).table j ≡ slot st.table j
  slot-fill_ne j ne = slot-fill j ∙ if_not {b = idx == j} _ _ (ground arith)

  module _ (near : d < sym_capacity)
      (passes : (e : ℕ) → e < d → Passes st.table name (probe_at (hash_name name) e))
      (free : (slot st.table idx).used ≡ false) (short : length name ≤ sym_name_max) where
    -- A used slot is another one, and stays.
    kept :
        (j : ℕ)
        → (slot st.table j).used ≡ true
        → slot (fill st idx name addr).table j ≡ slot st.table j
    kept j taken = slot-fill_ne j (λ same. differ (rw same at free) taken)

    Passes-fill :
        (n : Text) (j : ℕ) → Passes st.table n j → Passes (fill st idx name addr).table n j
    Passes-fill n j p = rw (kept j p.0) p

    new_name : new.name ≡ name
    new_name = take_all sym_name_max name short

    Stands-new : Stands (fill st idx name addr).table name idx
    Stands-new = record {
      distance = d;
      near = near;
      place = refl;
      passes = λ e lt. Passes-fill name _ (passes e lt);
    }

    Stands-fill :
        (n : Text) (j : ℕ) → Stands st.table n j → Stands (fill st idx name addr).table n j
    Stands-fill n j s = record {
      distance = s.distance;
      near = s.near;
      place = s.place;
      passes = λ e lt. Passes-fill n _ (s.passes e lt);
    }

    fill-IsReachable : IsReachable (fill st idx name addr).table
    fill-IsReachable j taken = elim (ℕ_discrete idx j) [
      | yes same ↦ rw (← same, slot-fill_self, new_name) Stands-new
      | no ne ↦
          let old = slot-fill_ne j ne in rw old (Stands-fill _ j (t.reachable j (rw old at taken)))
    ]

    pub fill-IsTable : IsTable (fill st idx name addr)
    unfolding fill
    fill-IsTable = record {
      slots = length-set st.table idx new ∙ t.slots;
      counted =
          omega
            (arith, count_used-set st.table idx new (omega (arith, t.slots)) free refl, t.counted);
      reachable = fill-IsReachable;
    }

    Holds-fill :
        (other : Text) (j a : ℕ)
        → Holds st.table other j a
        → Holds (fill st idx name addr).table other j a
    Holds-fill other j a h =
        let old = kept j h.used in
        record { used = rw old h.used; named = rw old h.named; at = rw old h.at }

    Holds-unfill :
        (other : Text) (j a : ℕ)
        → name ≢ other
        → Holds (fill st idx name addr).table other j a
        → Holds st.table other j a
    Holds-unfill other j a ne h =
        let apart : idx ≢ j = λ same. ne (
          sym new_name
          ∙ ap (λ (s : Symbol). s.name) (sym slot-fill_self)
          ∙ rw (← same) at h.named) in
        let old = slot-fill_ne j apart in
        record { used = rw old at h.used; named = rw old at h.named; at = rw old at h.at }

    found :
        (other : Text) (a : ℕ)
        → other ≢ []
        → (symtable_lookup (fill st idx name addr) other ≡ some a)
          ↔ ((i : ℕ) × Holds (fill st idx name addr).table other i a)
    found other a some_name =
        symtable_lookup-Holds (fill st idx name addr) other a some_name fill-IsReachable

    found_before :
        (other : Text) (a : ℕ)
        → other ≢ []
        → (symtable_lookup st other ≡ some a) ↔ ((i : ℕ) × Holds st.table other i a)
    found_before other a some_name = symtable_lookup-Holds st other a some_name t.reachable

    unchanged :
        (other : Text)
        → other ≢ []
        → name ≢ other
        → symtable_lookup (fill st idx name addr) other ≡ symtable_lookup st other
    unchanged other some_name ne =
        option_ext (symtable_lookup (fill st idx name addr) other) (symtable_lookup st other)
          (λ a e.
            let h = (found other a some_name).0 e in
            (found_before other a some_name).1 (h.0, Holds-unfill other h.0 a ne h.1))
          (λ a e.
            let h = (found_before other a some_name).0 e in
            (found other a some_name).1 (h.0, Holds-fill other h.0 a h.1))

    -- A lookup finds the new symbol under its name, and what it found before under any other.
    pub fill-lookup :
        (other : Text)
        → other ≢ []
        → symtable_lookup (fill st idx name addr) other
          ≡ (if str_eq name other then some addr else symtable_lookup st other)
    fill-lookup other some_name = elim (Bool-cases (str_eq name other)) [
      | inl same ↦
          let is : name ≡ other = (str_eq_iff _ _).0 same in
          (found other addr some_name).1 (
            idx,
            record {
              used = rw slot-fill_self refl;
              named = rw slot-fill_self (new_name ∙ is);
              at = rw slot-fill_self refl;
            },
          )
          ∙ sym (if_yes _ _ same)
      | inr differs ↦
          unchanged other some_name (λ same. differ differs ((str_eq_iff _ _).1 same))
          ∙ sym (if_not _ _ differs)
    ]
