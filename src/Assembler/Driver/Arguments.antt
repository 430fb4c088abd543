-- ===== src/Assembler/Driver/Arguments.antt =====
-- The command line of the assembler as the parts it is made of: a reading that does not follow the loop
-- of assembler/main.c.
use mathlib.Core.Path.{subst}
use mathlib.Core.List.{append-nil, append_assoc}
use educpu.Prelude.{
  ℕ, ◌≡◌, ◌≢◌, ◌⊎◌, inl, inr, refl, sym, ap, ◌∙◌, arith, true, false, List, [], ◌∷◌, ◌++◌, Option,
  none, some, get_or, All, ◌==◌, if◌then◌else◌, if_yes, if_not, Bool-cases, ==_iff, if_both,
}
use educpu.Assembler.Text.{Text, codes, str_eq, str_eq_iff}
use educpu.Assembler.Driver.{
  Cli, exit, go, AsmOptions, Arg, stops, wants_path, sets, positional, read_arg, read_args,
}

-- A part of the command line: the source file, the output file, or one of two flags.
pub data Item : Type 0 where
  source : Text → Item
  output : Text → Item
  listed : Item
  symbols : Item

abbrev pub words : Item → List Text
words (source path) = path ∷ []
words (output path) = codes "-o" ∷ path ∷ []
words listed = codes "--listing" ∷ []
words symbols = codes "--symbols" ∷ []

abbrev pub command : List Item → List Text
command [] = []
command (i ∷ items) = words i ++ command items

-- The source does not start with a dash.
abbrev pub IsItem : Item → Type 0
IsItem (source path) = get_or path 0 0 ≢ b'-'
IsItem _ = Unit

abbrev pub item_sources : Item → List Text
item_sources (source path) = path ∷ []
item_sources _ = []

abbrev pub sources : List Item → List Text
sources [] = []
sources (i ∷ items) = item_sources i ++ sources items

-- The path of the last `-o`.
abbrev pub item_output : Item → Option Text → Option Text
item_output (output path) before = some path
item_output _ before = before

abbrev pub last_output : List Item → Option Text → Option Text
last_output [] before = before
last_output (i ∷ items) before = last_output items (item_output i before)

abbrev pub listed_source : Option Text → List Text
listed_source none = []
listed_source (some path) = path ∷ []

-- After some parts there is an argument that asks for help.
abbrev pub AsksHelp : List Text → Type 0
AsksHelp args =
    (items : List Item) × (help : Text) × (rest : List Text) × (args ≡ command items ++ help ∷ rest)
    × All IsItem items
    × ((help ≡ codes "-h") ⊎ (help ≡ codes "--help"))

-- One part, from some options to others.
abbrev Changes : Item → AsmOptions → AsmOptions → Type 0
Changes i opt next =
    IsItem i
    × (listed_source opt.src_path ++ item_sources i ≡ listed_source next.src_path)
    × (item_output i opt.out_path ≡ next.out_path)

abbrev pub Reads : List Text → AsmOptions → AsmOptions → Type 0
Reads args opt last =
    (items : List Item) × (args ≡ command items)
    × All IsItem items
    × (listed_source opt.src_path ++ sources items ≡ listed_source last.src_path)
    × (last_output items opt.out_path ≡ last.out_path)

abbrev Views : Text → AsmOptions → Type 0
Views a opt =
    ((read_arg a opt ≡ stops 0) × ((a ≡ codes "-h") ⊎ (a ≡ codes "--help")))
    ⊎ (read_arg a opt ≡ stops 2)
    ⊎ ((read_arg a opt ≡ wants_path) × (a ≡ codes "-o"))
    ⊎ ((i : Item) × (next : AsmOptions) × (read_arg a opt ≡ sets next)
        × (a ∷ [] ≡ words i)
        × Changes i opt next)

-- An argument that is none of the options.
other-Views :
    (a : Text) (opt : AsmOptions) (o : Option Text)
    → opt.src_path ≡ o
    → read_arg a opt ≡ (if get_or a 0 0 == b'-' then stops 2 else positional a opt o)
    → Views a opt
unfolding positional
other-Views a opt (some path) named is =
    inr (inl (is ∙ if_both (λ (r : Arg). r ≡ stops 2) (get_or a 0 0 == b'-') refl refl))
other-Views a opt none free is = elim (Bool-cases (get_or a 0 0 == b'-')) [
  | inl dash ↦ inr (inl (is ∙ if_yes _ _ dash))
  | inr bare ↦
      let sources_are : listed_source opt.src_path ++ a ∷ [] ≡ a ∷ [] =
        ap (λ (o : Option Text). listed_source o ++ a ∷ []) free in
      inr (
        inr (
          inr (
            source a,
            record opt { src_path = some a },
            is ∙ if_not _ _ bare,
            refl,
            (λ e. let dash = (==_iff (get_or a 0 0) b'-').1 e in cc, sources_are, refl),
          )))
]

flag-Views :
    (a : Text) (opt next : AsmOptions) (i : Item)
    → read_arg a opt ≡ sets next
    → a ∷ [] ≡ words i
    → Changes i opt next
    → Views a opt
flag-Views a opt next i is word changes = inr (inr (inr (i, next, is, word, changes)))

read_arg-Views : (a : Text) (opt : AsmOptions) → Views a opt
unfolding read_arg
read_arg-Views a opt = elim (Bool-cases (str_eq a (codes "-h"))) [
  | inl h ↦ inl (rw h refl, inl ((str_eq_iff a _).0 h))
  | inr n₁ ↦ elim (Bool-cases (str_eq a (codes "--help"))) [
    | inl h ↦ inl (rw (n₁, h) refl, inr ((str_eq_iff a _).0 h))
    | inr n₂ ↦ elim (Bool-cases (str_eq a (codes "-o"))) [
      | inl h ↦ inr (inr (inl (rw (n₁, n₂, h) refl, (str_eq_iff a _).0 h)))
      | inr n₃ ↦ elim (Bool-cases (str_eq a (codes "--listing"))) [
        | inl h ↦
            flag-Views a opt (record opt { listing = true }) listed (rw (n₁, n₂, n₃, h) refl)
              (ap (λ (t : Text). t ∷ []) ((str_eq_iff a _).0 h)) (tt, append-nil _, refl)
        | inr n₄ ↦ elim (Bool-cases (str_eq a (codes "--symbols"))) [
          | inl h ↦
              flag-Views a opt (record opt { dump_symbols = true }) symbols
                (rw (n₁, n₂, n₃, n₄, h) refl) (ap (λ (t : Text). t ∷ []) ((str_eq_iff a _).0 h))
                (tt, append-nil _, refl)
          | inr n₅ ↦ other-Views a opt opt.src_path refl (rw (n₁, n₂, n₃, n₄, n₅) refl)
        ]
      ]
    ]
  ]
]

-- Where the loop has come to: a code 0 is a call for help.
abbrev pub Outcome : List Text → AsmOptions → Cli → Type 0
Outcome args opt (exit code) = code ≡ 0 → AsksHelp args
Outcome args opt (go last) = Reads args opt last

-- A part in front.
Outcome-item :
    (i : Item) (args : List Text) (opt next : AsmOptions) (c : Cli)
    → Changes i opt next
    → Outcome args next c
    → Outcome (words i ++ args) opt c
Outcome-item i args opt next (exit code) (fits, _, _) asks = λ zero.
    let (items, help, rest, is, all, helps) = asks zero in
    (
      i ∷ items,
      help,
      rest,
      ap (λ (l : List Text). words i ++ l) is
          ∙ sym (append_assoc (words i) (command items) (help ∷ rest)),
      (fits, all),
      helps,
    )
Outcome-item i args opt next (go last) (fits, from, out) (items, is, all, named, path) = (
  i ∷ items,
  ap (λ (l : List Text). words i ++ l) is,
  (fits, all),
  sym (append_assoc (listed_source opt.src_path) (item_sources i) (sources items))
      ∙ ap (λ (l : List Text). l ++ sources items) from
      ∙ named,
  ap (last_output items) out ∙ path,
)

Outcome-along :
    (args args' : List Text) (opt : AsmOptions) (c : Cli)
    → args' ≡ args
    → Outcome args opt c
    → Outcome args' opt c
Outcome-along args args' opt c same h = rw same h

-- The loop at one argument.
read_args-one :
    (a : Text) (rest : List Text) (opt : AsmOptions)
    → ((code : ℕ) → read_arg a opt ≡ stops code → read_args (a ∷ rest) false opt ≡ exit code)
      × (read_arg a opt ≡ wants_path → read_args (a ∷ rest) false opt ≡ read_args rest true opt)
      × ((next : AsmOptions)
          → read_arg a opt ≡ sets next
          → read_args (a ∷ rest) false opt ≡ read_args rest false next)
unfolding read_args
read_args-one a rest opt = (
  λ code is. rw (is, read_args) refl,
  λ is. rw (is, read_args) refl,
  λ next is. rw (is, read_args) refl,
)

-- One argument, when what follows it is known.
Outcome-argument :
    (a : Text) (rest : List Text) (opt : AsmOptions)
    → ((next : AsmOptions) → Outcome rest next (read_args rest false next))
    → (a ≡ codes "-o" → Outcome (a ∷ rest) opt (read_args rest true opt))
    → Outcome (a ∷ rest) opt (read_args (a ∷ rest) false opt)
Outcome-argument a rest opt later path = elim (read_arg-Views a opt) [
  | inl (is, helps) ↦
      subst (Outcome (a ∷ rest) opt) (sym ((read_args-one a rest opt).0 0 is))
        (λ zero. ([], a, rest, refl, tt, helps))
  | inr (inl is) ↦
      subst (Outcome (a ∷ rest) opt) (sym ((read_args-one a rest opt).0 2 is))
        (λ zero. absurd (omega arith))
  | inr (inr (inl (is, dash_o))) ↦
      subst (Outcome (a ∷ rest) opt) (sym ((read_args-one a rest opt).1 is)) (path dash_o)
  | inr (inr (inr (i, next, is, word, changes))) ↦
      subst (Outcome (a ∷ rest) opt) (sym ((read_args-one a rest opt).2 next is)) (
        Outcome-along (words i ++ rest) (a ∷ rest) opt (read_args rest false next)
          (ap (λ (l : List Text). l ++ rest) word)
          (Outcome-item i rest opt next (read_args rest false next) changes (later next)))
]

pub read_args-Outcome :
    (args : List Text) (opt : AsmOptions) → Outcome args opt (read_args args false opt)
unfolding read_args
read_args-Outcome [] opt = ([], refl, tt, append-nil _, refl)
read_args-Outcome (a ∷ []) opt =
    Outcome-argument a [] opt (read_args-Outcome []) (λ dash_o zero. absurd (omega arith))
read_args-Outcome (a ∷ path ∷ rest) opt =
    Outcome-argument a (path ∷ rest) opt (read_args-Outcome (path ∷ rest)) (λ dash_o.
      Outcome-along (codes "-o" ∷ path ∷ rest) (a ∷ path ∷ rest) opt
        (read_args rest false (record opt { out_path = some path }))
        (ap (λ (t : Text). t ∷ path ∷ rest) dash_o)
        (Outcome-item (output path) rest opt (record opt { out_path = some path })
          (read_args rest false (record opt { out_path = some path })) (tt, append-nil _, refl)
          (read_args-Outcome rest (record opt { out_path = some path }))))

-- One path is all that the parts name.
pub one_source :
    (o : Option Text) (l : List Text) (src : Text)
    → o ≡ some src
    → l ≡ listed_source o
    → l ≡ src ∷ []
one_source o l src named is = is ∙ ap listed_source named
