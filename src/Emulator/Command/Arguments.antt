-- ===== src/Emulator/Command/Arguments.antt =====
-- The command line of the emulator as the parts it is made of: a reading that does not follow the loop
-- of emulator/main.c.
use mathlib.Core.Option
use mathlib.Core.Path.{fun_ext}
use educpu.Prelude.{
  ℕ, ◌<◌, ◌≡◌, ◌≢◌, inl, inr, refl, ap, ◌∙◌, arith, Bool, true, false, ◌||◌, List, [], ◌∷◌, ◌++◌,
  Option, none, some, get_or, All, ltb, leb, ◌==◌, if◌then◌else◌, if_yes, if_not, ==_iff,
  Bool-cases,
}
use educpu.Assembler.Text.{Text, codes, str_eq, str_eq-ne}
use educpu.Assembler.Numbers.Literals.{digit_codes, place_value}
use educpu.Emulator.Command.Addresses.{parse_hex_addr-digit_codes}
use educpu.Emulator.Command.{Options, refused, positional, read_arg, read_args}

-- A part of the command line: a flag, `--addr` with its digits, the binary file, or an option that
-- there is not.
pub data Item : Type 0 where
  dump step trace : Item
  addr : ℕ → List ℕ → Item
  binary : Text → Item
  unknown : Text → Item

abbrev pub words : Item → List Text
words dump = codes "--dump" ∷ []
words step = codes "--step" ∷ []
words trace = codes "--trace" ∷ []
words (addr d ds) = codes "--addr" ∷ digit_codes (d ∷ ds) ∷ []
words (binary path) = path ∷ []
words (unknown a) = a ∷ []

abbrev pub command : List Item → List Text
command [] = []
command (i ∷ items) = words i ++ command items

-- Digits are hexadecimal, only an option starts with a dash, and an unknown one is none of the four.
abbrev pub IsItem : Item → Type 0
IsItem (addr d ds) = All (λ (v : ℕ). v < 16) (d ∷ ds)
IsItem (binary path) = get_or path 0 0 ≢ b'-'
IsItem (unknown a) =
    (get_or a 0 0 ≡ b'-')
    × (a ≢ codes "--dump")
    × (a ≢ codes "--step")
    × (a ≢ codes "--trace")
    × (a ≢ codes "--addr")
IsItem _ = Unit

-- An option that there is not, or an address above 0xFFFF.
abbrev pub is_bad : Item → Bool
is_bad (addr d ds) = ltb 0xffff (place_value 16 (d ∷ ds))
is_bad (unknown a) = true
is_bad _ = false

abbrev pub is_dump : Item → Bool
is_dump dump = true
is_dump _ = false

abbrev pub is_step : Item → Bool
is_step step = true
is_step _ = false

abbrev pub is_trace : Item → Bool
is_trace trace = true
is_trace _ = false

abbrev pub any : (Item → Bool) → List Item → Bool
any p [] = false
any p (i ∷ items) = p i || any p items

abbrev pub item_binaries : Item → List Text
item_binaries (binary path) = path ∷ []
item_binaries _ = []

abbrev pub binaries : List Item → List Text
binaries [] = []
binaries (i ∷ items) = item_binaries i ++ binaries items

-- Whether there is an `--addr`, and the last one.
abbrev pub item_addr : Item → Bool × ℕ → Bool × ℕ
item_addr (addr d ds) before = (true, place_value 16 (d ∷ ds))
item_addr _ before = before

abbrev pub last_addr : List Item → Bool × ℕ → Bool × ℕ
last_addr [] before = before
last_addr (i ∷ items) before = last_addr items (item_addr i before)

abbrev pub listed : Option Text → List Text
listed none = []
listed (some path) = path ∷ []

abbrev pub set_binary : Text → Options → Option Text → Option Options
set_binary path opt none = some (record opt { bin_path = some path })
set_binary path opt (some before) = none

abbrev pub apply_item : Item → Options → Option Options
apply_item dump opt = some (record opt { do_dump = true })
apply_item step opt = some (record opt { do_step = true })
apply_item trace opt = some (record opt { do_trace = true })
apply_item (addr d ds) opt =
    if leb (place_value 16 (d ∷ ds)) 0xffff
    then some (record opt { has_addr = true; start_addr = place_value 16 (d ∷ ds) })
    else none
apply_item (binary path) opt = set_binary path opt opt.bin_path
apply_item (unknown a) opt = none

abbrev pub apply_all : List Item → Options → Option Options
apply_all [] opt = some opt
apply_all (i ∷ items) opt = Option.bind (apply_item i opt) (apply_all items)

bare-ne : (path : Text) (s : Text) → get_or path 0 0 ≢ b'-' → get_or s 0 0 ≡ b'-' → path ≢ s
bare-ne path s bare dash same = bare (ap (λ (t : Text). get_or t 0 0) same ∙ dash)

read_arg-other :
    (a : Text) (opt : Options)
    → a ≢ codes "--dump"
    → a ≢ codes "--step"
    → a ≢ codes "--trace"
    → a ≢ codes "--addr"
    → read_arg a opt ≡ (if get_or a 0 0 == b'-' then refused else positional a opt opt.bin_path)
unfolding read_arg
read_arg-other a opt h₁ h₂ h₃ h₄ =
    rw (str_eq-ne a _ h₁, str_eq-ne a _ h₂, str_eq-ne a _ h₃, str_eq-ne a _ h₄) refl

read_args-binary :
    (path : Text) (rest : List Text) (opt : Options) (o : Option Text)
    → read_arg path opt ≡ positional path opt o
    → read_args (path ∷ rest) false opt ≡ Option.bind (set_binary path opt o) (read_args rest false)
unfolding read_args positional Option.bind
read_args-binary path rest opt none is = rw (is, read_args) refl
read_args-binary path rest opt (some before) is = rw (is, read_args) refl

read_args-item :
    (i : Item) (rest : List Text) (opt : Options)
    → IsItem i
    → read_args (words i ++ rest) false opt ≡ Option.bind (apply_item i opt) (read_args rest false)
unfolding read_args read_arg str_eq Option.bind
read_args-item dump rest opt h = refl
read_args-item step rest opt h = refl
read_args-item trace rest opt h = refl
read_args-item (addr d ds) rest opt h = elim (Bool-cases (leb (place_value 16 (d ∷ ds)) 0xffff)) [
  | inl fits ↦
      let is = parse_hex_addr-digit_codes d ds h ∙ if_yes _ _ fits in rw (fits, is, read_args) refl
  | inr large ↦
      let is = parse_hex_addr-digit_codes d ds h ∙ if_not _ _ large in
      rw (large, is, read_args) refl
]
read_args-item (binary path) rest opt h = read_args-binary path rest opt opt.bin_path (
    read_arg-other path opt (bare-ne path _ h refl) (bare-ne path _ h refl) (bare-ne path _ h refl)
      (bare-ne path _ h refl)
    ∙ if_not {b = get_or path 0 0 == b'-'} _ _ (ground (arith, h)))
read_args-item (unknown a) rest opt (dash, h₁, h₂, h₃, h₄) =
    let is = read_arg-other a opt h₁ h₂ h₃ h₄ ∙ if_yes _ _ ((==_iff (get_or a 0 0) b'-').1 dash) in
    rw (is, read_args) refl

pub read_args-command :
    (items : List Item) (opt : Options)
    → All IsItem items
    → read_args (command items) false opt ≡ apply_all items opt
unfolding read_args
read_args-command [] opt h = refl
read_args-command (i ∷ items) opt h =
    read_args-item i (command items) opt h.0
    ∙ ap (Option.bind (apply_item i opt)) (fun_ext (λ o. read_args-command items o h.1))
