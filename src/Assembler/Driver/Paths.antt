-- ===== src/Assembler/Driver/Paths.antt =====
-- The path of the output file.
use mathlib.Core.List.{append_assoc}
use educpu.Prelude.{
  ◌⊎◌, sym, Bool-cases, ==_iff, All-right, ℕ, ◌+◌, ◌<◌, ◌≡◌, ◌≢◌, ◌∙◌, refl, ap, arith, inl, inr,
  true, [], ◌∷◌, ◌++◌, Option, none, some, Option-cases, length, ltb, ◌==◌, if_yes, if_not, All,
}
use educpu.Assembler.Text.{Text, take-append}
use educpu.Assembler.Driver.{strrchr, dot_bin, ends_name, replace_extension, derive_output_path}

-- Part of a file's name, with no dot and no slash.
abbrev pub IsPlain : Text → Type 0
IsPlain = All (λ (c : ℕ). (c ≢ b'.') × (c ≢ b'/'))

abbrev pub HasNo : ℕ → Text → Type 0
HasNo c = All (λ (d : ℕ). d ≢ c)

HasNo-dot : (s : Text) → IsPlain s → HasNo b'.' s
HasNo-dot [] h = tt
HasNo-dot (c ∷ s) h = (h.0.0, HasNo-dot s h.1)

HasNo-slash : (s : Text) → IsPlain s → HasNo b'/' s
HasNo-slash [] h = tt
HasNo-slash (c ∷ s) h = (h.0.1, HasNo-slash s h.1)

strrchr-HasNo : (s : Text) (c : ℕ) → HasNo c s → strrchr s c ≡ none
unfolding strrchr
strrchr-HasNo [] c h = refl
strrchr-HasNo (x ∷ s) c h =
    rw (strrchr-HasNo s c h.1) (if_not {b = x == c} _ _ (ground (arith, h.0)))

strrchr-last : (s t : Text) (c : ℕ) → HasNo c t → strrchr (s ++ c ∷ t) c ≡ some (length s)
unfolding strrchr
strrchr-last [] t c h = rw (strrchr-HasNo t c h) (if_yes {b = c == c} _ _ (ground arith))
strrchr-last (x ∷ s) t c h = rw (strrchr-last s t c h) (ap some (omega arith))

strrchr-before : (s t : Text) (c : ℕ) → HasNo c t → strrchr (s ++ t) c ≡ strrchr s c
unfolding strrchr
strrchr-before [] t c h = strrchr-HasNo t c h
strrchr-before (x ∷ s) t c h = rw (strrchr-before s t c h) refl

strrchr-lt : (s : Text) (c i : ℕ) → strrchr s c ≡ some i → i < length s
unfolding strrchr
strrchr-lt [] c i is = cc
strrchr-lt (x ∷ s) c i is = elim (Option-cases (strrchr s c)) [
  | inl absent ↦ ground (arith, rw absent at is)
  | inr (k, found) ↦
      let next : some (k + 1) ≡ some i = rw found at is in
      let same : k + 1 ≡ i = cc in omega (arith, strrchr-lt s c k found)
]

ends_name-before :
    (slash : Option ℕ) (n : ℕ) → ((i : ℕ) → slash ≡ some i → i < n) → ends_name slash n ≡ true
unfolding ends_name
ends_name-before none n lt = refl
ends_name-before (some i) n lt = ground (arith, lt i refl)

-- A dot of the directory changes nothing.
replace_extension-directory :
    (dot : Option ℕ) (n : ℕ) (path : Text)
    → ((i : ℕ) → dot ≡ some i → i < n)
    → replace_extension dot (some n) path ≡ path ++ dot_bin
unfolding replace_extension ends_name
replace_extension-directory none n path lt = refl
replace_extension-directory (some i) n path lt =
    if_not {b = ltb n i} _ _ (ground (arith, lt i refl))

-- For an extension and a name without dots and slashes: after whatever stem the extension is replaced,
-- and the name by itself or in any directory is lengthened, whatever dots the directory has.
pub derive_output_path_lem :
    (dir stem ext name : Text)
    → IsPlain ext
    → IsPlain name
    → (derive_output_path (stem ++ b'.' ∷ ext) ≡ stem ++ dot_bin)
      × (derive_output_path (dir ++ b'/' ∷ name) ≡ (dir ++ b'/' ∷ name) ++ dot_bin)
      × (derive_output_path name ≡ name ++ dot_bin)
unfolding derive_output_path replace_extension
derive_output_path_lem dir stem ext name plain_ext plain_name = (replaced, lengthened, alone)
  where
    replaced : derive_output_path (stem ++ b'.' ∷ ext) ≡ stem ++ dot_bin
    replaced =
        let slash : strrchr (stem ++ b'.' ∷ ext) b'/' ≡ strrchr stem b'/' =
          strrchr-before stem (b'.' ∷ ext) b'/' (omega arith, HasNo-slash ext plain_ext) in
        rw (strrchr-last stem ext b'.' (HasNo-dot ext plain_ext), slash)
          (if_yes _ _ (ends_name-before (strrchr stem b'/') (length stem) (strrchr-lt stem b'/'))
            ∙ ap (λ (t : Text). t ++ dot_bin) (take-append stem (b'.' ∷ ext)))

    lengthened : derive_output_path (dir ++ b'/' ∷ name) ≡ (dir ++ b'/' ∷ name) ++ dot_bin
    lengthened =
        let dot : strrchr (dir ++ b'/' ∷ name) b'.' ≡ strrchr dir b'.' =
          strrchr-before dir (b'/' ∷ name) b'.' (omega arith, HasNo-dot name plain_name) in
        rw (strrchr-last dir name b'/' (HasNo-slash name plain_name), dot)
          (replace_extension-directory (strrchr dir b'.') (length dir) (dir ++ b'/' ∷ name)
            (strrchr-lt dir b'.'))

    alone : derive_output_path name ≡ name ++ dot_bin
    alone = rw (strrchr-HasNo name b'.' (HasNo-dot name plain_name)) refl

HasNo-IsPlain : (s : Text) → HasNo b'.' s → HasNo b'/' s → IsPlain s
HasNo-IsPlain [] h k = tt
HasNo-IsPlain (c ∷ s) h k = ((h.0, k.0), HasNo-IsPlain s h.1 k.1)

-- A text has no `c`, or a last one.
LastOf : ℕ → Text → Type 0
LastOf c s = HasNo c s ⊎ ((front : Text) × (back : Text) × (s ≡ front ++ c ∷ back) × HasNo c back)

last_of : (c : ℕ) (s : Text) → LastOf c s
unfolding LastOf
last_of c [] = inl tt
last_of c (x ∷ s) = elim (last_of c s) [
  | inr (front, back, is, none_after) ↦ inr (x ∷ front, back, ap (◌∷◌ x) is, none_after)
  | inl absent ↦ elim (Bool-cases (x == c)) [
    | inl here ↦ let e : x ≡ c = (==_iff x c).0 here in inr ([], s, ap (λ (d : ℕ). d ∷ s) e, absent)
    | inr other ↦ inl (λ e. let here = (==_iff x c).1 e in cc, absent)
  ]
]

-- The path with `.bin` for its extension, if its last part has one, and else after it.
abbrev pub IsDerived : Text → Text → Type 0
IsDerived src path =
    ((stem : Text) × (ext : Text) × (src ≡ stem ++ b'.' ∷ ext)
      × IsPlain ext
      × (path ≡ stem ++ dot_bin))
    ⊎ ((dir : Text) × (name : Text) × (src ≡ dir ++ b'/' ∷ name)
        × IsPlain name
        × (path ≡ src ++ dot_bin))
    ⊎ (IsPlain src × (path ≡ src ++ dot_bin))

named_part :
    (src dir name : Text)
    → src ≡ dir ++ b'/' ∷ name
    → IsPlain name
    → IsDerived src (derive_output_path src)
named_part src dir name is plain =
    inr (inl (dir, name, is, plain, rw is (derive_output_path_lem dir [] [] name tt plain).1))

pub derive_output_path-IsDerived : (src : Text) → IsDerived src (derive_output_path src)
unfolding LastOf
derive_output_path-IsDerived src = elim (last_of b'.' src) [
  | inl no_dot ↦ elim (last_of b'/' src) [
    | inl no_slash ↦
        let plain = HasNo-IsPlain src no_dot no_slash in
        inr (inr (plain, (derive_output_path_lem [] [] [] src tt plain).2))
    | inr (dir, name, is, no_slash) ↦
        let parts : HasNo b'.' (dir ++ b'/' ∷ name) = rw is at no_dot in
        named_part src dir name is
          (HasNo-IsPlain name (All-right (λ (d : ℕ). d ≢ b'.') dir (b'/' ∷ name) parts).1 no_slash)
  ]
  | inr (stem, ext, is, no_dot) ↦ elim (last_of b'/' ext) [
    | inl no_slash ↦
        let plain = HasNo-IsPlain ext no_dot no_slash in
        inl (stem, ext, is, plain, rw is (derive_output_path_lem [] stem ext [] plain tt).0)
    | inr (dir, name, part, no_slash) ↦
        let parts : HasNo b'.' (dir ++ b'/' ∷ name) = rw part at no_dot in
        let whole : src ≡ (stem ++ b'.' ∷ dir) ++ b'/' ∷ name =
          is
          ∙ ap (λ (t : Text). stem ++ b'.' ∷ t) part
          ∙ sym (append_assoc stem (b'.' ∷ dir) (b'/' ∷ name)) in
        named_part src (stem ++ b'.' ∷ dir) name whole
          (HasNo-IsPlain name (All-right (λ (d : ℕ). d ≢ b'.') dir (b'/' ∷ name) parts).1 no_slash)
  ]
]
