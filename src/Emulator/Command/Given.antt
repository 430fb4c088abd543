-- ===== src/Emulator/Command/Given.antt =====
-- The options that the parts of a command line give.
use mathlib.Core.Option
use mathlib.Core.List.{append-nil, append_assoc}
use educpu.Prelude.{
  ℕ, ◌≤◌, ◌≡◌, ◌⊎◌, inl, inr, refl, sym, ap, ◌∙◌, arith, Bool, true, false, ◌||◌, List, [], ◌∷◌,
  ◌++◌, Option, none, some, length, length-append, leb, Bool-cases,
}
use educpu.Assembler.Text.{Text}
use educpu.Assembler.Numbers.Literals.{place_value}
use educpu.Emulator.Command.{Options}
use educpu.Emulator.Command.Arguments.{
  Item, dump, step, trace, addr, binary, unknown, is_bad, is_dump, is_step, is_trace, any,
  item_binaries, binaries, item_addr, last_addr, listed, set_binary, apply_item, apply_all,
}

-- The options after some parts, from those before.
pub record Given (items : List Item) (opt last : Options) : Type 0 where
  pub good : any is_bad items ≡ false
  pub paths : listed opt.bin_path ++ binaries items ≡ listed last.bin_path
  pub dumps : last.do_dump ≡ (opt.do_dump || any is_dump items)
  pub steps : last.do_step ≡ (opt.do_step || any is_step items)
  pub traces : last.do_trace ≡ (opt.do_trace || any is_trace items)
  pub at : last_addr items (opt.has_addr, opt.start_addr) ≡ (last.has_addr, last.start_addr)

or_false : (b : Bool) → b ≡ (b || false)
or_false b = ground arith

or_true : (b : Bool) → true ≡ (b || true)
or_true b = ground arith

or_along : (a b c d e : Bool) → e ≡ (d || c) → d ≡ (a || (b || false)) → e ≡ (a || (b || c))
or_along a b c d e p q = ground arith

neither : (a b : Bool) → (a || false) ≡ false → b ≡ false → (a || b) ≡ false
neither a b p q = ground arith

-- One part in front of others.
Given-cons :
    (i : Item) (items : List Item) (opt next last : Options)
    → Given (i ∷ []) opt next
    → Given items next last
    → Given (i ∷ items) opt last
Given-cons i items opt next last h k = record {
  good = neither (is_bad i) (any is_bad items) h.good k.good;
  paths =
      ap (λ (l : List Text). listed opt.bin_path ++ (l ++ binaries items))
        (sym (append-nil (item_binaries i)))
      ∙ sym (append_assoc (listed opt.bin_path) (item_binaries i ++ []) (binaries items))
      ∙ ap (λ (l : List Text). l ++ binaries items) h.paths
      ∙ k.paths;
  dumps =
      or_along opt.do_dump (is_dump i) (any is_dump items) next.do_dump last.do_dump k.dumps
        h.dumps;
  steps =
      or_along opt.do_step (is_step i) (any is_step items) next.do_step last.do_step k.steps
        h.steps;
  traces =
      or_along opt.do_trace (is_trace i) (any is_trace items) next.do_trace last.do_trace k.traces
        h.traces;
  at = ap (last_addr items) h.at ∙ k.at;
}

-- What cannot be: a bad part, or a second path.
abbrev pub Refuses : List Item → Options → Type 0
Refuses items opt = (any is_bad items ≡ true) ⊎ (2 ≤ length (listed opt.bin_path ++ binaries items))

abbrev pub Applies : List Item → Options → Option Options → Type 0
Applies items opt none = Refuses items opt
Applies items opt (some last) = Given items opt last

binary-Applies :
    (path : Text) (opt : Options) (o : Option Text)
    → opt.bin_path ≡ o
    → Applies (binary path ∷ []) opt (set_binary path opt o)
binary-Applies path opt none free = record {
  good = refl;
  paths = ap (λ (o : Option Text). listed o ++ path ∷ []) free;
  dumps = or_false opt.do_dump;
  steps = or_false opt.do_step;
  traces = or_false opt.do_trace;
  at = refl;
}
binary-Applies path opt (some before) named = inr (rw named (omega arith))

-- A flag or an address leaves the path alone.
flag-Given :
    (i : Item) (opt last : Options)
    → is_bad i ≡ false
    → item_binaries i ≡ []
    → last.bin_path ≡ opt.bin_path
    → last.do_dump ≡ (opt.do_dump || is_dump i)
    → last.do_step ≡ (opt.do_step || is_step i)
    → last.do_trace ≡ (opt.do_trace || is_trace i)
    → item_addr i (opt.has_addr, opt.start_addr) ≡ (last.has_addr, last.start_addr)
    → Given (i ∷ []) opt last
flag-Given i opt last good empty path dumps steps traces at = record {
  good = ap (λ (b : Bool). b || false) good;
  paths =
      ap (λ (l : List Text). listed opt.bin_path ++ (l ++ [])) empty
      ∙ append-nil (listed opt.bin_path)
      ∙ ap listed (sym path);
  dumps = dumps ∙ ap (λ (b : Bool). opt.do_dump || b) (or_false (is_dump i));
  steps = steps ∙ ap (λ (b : Bool). opt.do_step || b) (or_false (is_step i));
  traces = traces ∙ ap (λ (b : Bool). opt.do_trace || b) (or_false (is_trace i));
  at = at;
}

addr-Applies :
    (d : ℕ) (ds : List ℕ) (opt : Options) (v : ℕ)
    → place_value 16 (d ∷ ds) ≡ v
    → Applies (addr d ds ∷ []) opt (apply_item (addr d ds) opt)
addr-Applies d ds opt v is = elim (Bool-cases (leb (place_value 16 (d ∷ ds)) 0xffff)) [
  | inl fits ↦ rw fits (
      flag-Given (addr d ds) opt
        (record opt { has_addr = true; start_addr = place_value 16 (d ∷ ds) }) (ground arith) refl
        refl (or_false opt.do_dump) (or_false opt.do_step) (or_false opt.do_trace) refl)
  | inr large ↦ rw large (inl (ground arith))
]

apply_item-Applies : (i : Item) (opt : Options) → Applies (i ∷ []) opt (apply_item i opt)
apply_item-Applies dump opt =
    flag-Given dump opt (record opt { do_dump = true }) refl refl refl (or_true opt.do_dump)
      (or_false opt.do_step) (or_false opt.do_trace) refl
apply_item-Applies step opt =
    flag-Given step opt (record opt { do_step = true }) refl refl refl (or_false opt.do_dump)
      (or_true opt.do_step) (or_false opt.do_trace) refl
apply_item-Applies trace opt =
    flag-Given trace opt (record opt { do_trace = true }) refl refl refl (or_false opt.do_dump)
      (or_false opt.do_step) (or_true opt.do_trace) refl
apply_item-Applies (addr d ds) opt = addr-Applies d ds opt (place_value 16 (d ∷ ds)) refl
apply_item-Applies (binary path) opt = binary-Applies path opt opt.bin_path refl
apply_item-Applies (unknown a) opt = inl refl

-- A refusal of a part, or of the parts after it.
Refuses-cons :
    (i : Item) (items : List Item) (opt : Options) → Refuses (i ∷ []) opt → Refuses (i ∷ items) opt
Refuses-cons i items opt (inl bad) = inl (ground (arith, bad))
Refuses-cons i items opt (inr two) = inr (
    omega (
      arith,
      two,
      length-append (listed opt.bin_path) (item_binaries i ++ []),
      length-append (item_binaries i) [],
      length-append (listed opt.bin_path) (item_binaries i ++ binaries items),
      length-append (item_binaries i) (binaries items),
    ))

Refuses-later :
    (i : Item) (items : List Item) (opt next : Options)
    → Given (i ∷ []) opt next
    → Refuses items next
    → Refuses (i ∷ items) opt
Refuses-later i items opt next h (inl bad) = inl (ground (arith, bad))
Refuses-later i items opt next h (inr two) = inr (
    omega (
      arith,
      two,
      ap length h.paths,
      length-append (listed opt.bin_path) (item_binaries i ++ []),
      length-append (item_binaries i) [],
      length-append (listed next.bin_path) (binaries items),
      length-append (listed opt.bin_path) (item_binaries i ++ binaries items),
      length-append (item_binaries i) (binaries items),
    ))

later-Applies :
    (i : Item) (items : List Item) (opt next : Options) (o : Option Options)
    → Given (i ∷ []) opt next
    → Applies items next o
    → Applies (i ∷ items) opt o
later-Applies i items opt next none h k = Refuses-later i items opt next h k
later-Applies i items opt next (some last) h k = Given-cons i items opt next last h k

bind-Applies :
    (i : Item) (items : List Item) (opt : Options) (o : Option Options)
    → Applies (i ∷ []) opt o
    → ((next : Options) → Applies items next (apply_all items next))
    → Applies (i ∷ items) opt (Option.bind o (apply_all items))
unfolding Option.bind
bind-Applies i items opt none h k = Refuses-cons i items opt h
bind-Applies i items opt (some next) h k =
    later-Applies i items opt next (apply_all items next) h (k next)

pub apply_all-Applies :
    (items : List Item) (opt : Options) → Applies items opt (apply_all items opt)
apply_all-Applies [] opt = record {
  good = refl;
  paths = append-nil _;
  dumps = or_false opt.do_dump;
  steps = or_false opt.do_step;
  traces = or_false opt.do_trace;
  at = refl;
}
apply_all-Applies (i ∷ items) opt =
    bind-Applies i items opt (apply_item i opt) (apply_item-Applies i opt) (apply_all-Applies items)
