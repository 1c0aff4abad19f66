-- ===== src/Fat/Create/NameChars.antt =====
-- The characters of a name, in the entries that hold them.
use hatcher.Base.{
  ℕ, zero, suc, ◌%◌, ◌^◌, ◌≤◌, ◌<◌, ◌≡◌, refl, sym, ap, ◌∙◌, Bool, true, not, List, [], ◌∷◌, ◌++◌,
  map, arith, ◌==◌, ◌||◌, All, get_or, drop, length, replicate, length-append, length-take,
  length-replicate, if-true,
}
use hatcher.Text.{take_while, skip_while}
use hatcher.Fat.{toupper_ascii, lfn_copy_part}
use hatcher.Fat.Dir.{lfn_chars}
use hatcher.Fat.Create.{pad, no_dot, make_sfn, name_char, lfn_entry}

-- A list of known length is the list of its elements.
abbrev bytes : ℕ → ℕ → List ℕ → List ℕ
bytes zero i s = []
bytes (suc n) i s = get_or s i 0 ∷ bytes n (suc i) s

bytes_behind : (n i : ℕ) (c : ℕ) (s : List ℕ) → bytes n (suc i) (c ∷ s) ≡ bytes n i s
bytes_behind zero i c s = refl
bytes_behind (suc n) i c s = ap (λ r. get_or s i 0 ∷ r) (bytes_behind n (suc i) c s)

pub bytes_lem : (n : ℕ) (s : List ℕ) → length s ≡ n → s ≡ bytes n 0 s
bytes_lem zero [] h = refl
bytes_lem zero (c ∷ s) h = absurd (omega arith)
bytes_lem (suc n) [] h = absurd (omega arith)
bytes_lem (suc n) (c ∷ s) h =
    ap (λ r. c ∷ r) (bytes_lem n s (omega arith) ∙ sym (bytes_behind n 0 c s))

length-pad : (n : ℕ) (s : List ℕ) → length (pad n s) ≡ n
length-pad n s =
    let blank : ℕ = b' ' in
    omega (
      arith,
      length-take n (s ++ replicate n b' '),
      length-append s (replicate n b' '),
      length-replicate n blank,
    )

pub length-make_sfn : (name : List ℕ) → length (make_sfn name) ≡ 11
unfolding make_sfn
length-make_sfn name =
    let base = map toupper_ascii (take_while no_dot name) in
    let ext = map toupper_ascii (drop 1 (skip_while no_dot name)) in
    omega (arith, length-append (pad 8 base) (pad 3 ext), length-pad 8 base, length-pad 3 ext)

-- Characters that a long name can hold.
abbrev pub IsNameChar : ℕ → Type 0
IsNameChar c = (0 < c) × (c < 0xFF)

-- The low bytes of `n` characters of the name.
abbrev low_chars : ℕ → ℕ → List ℕ → List ℕ
low_chars zero i name = []
low_chars (suc n) i name = name_char name i % 2 ^ 8 ∷ low_chars n (suc i) name

low_chars_behind : (n i c : ℕ) (name : List ℕ) → low_chars n (suc i) (c ∷ name) ≡ low_chars n i name
low_chars_behind zero i c name = refl
low_chars_behind (suc n) i c name =
    ap (λ r. name_char name i % 2 ^ 8 ∷ r) (low_chars_behind n (suc i) c name)

abbrev stays : ℕ → Bool
stays ch = not (ch == 0 || ch == 0xFF)

low_chars-name :
    (n : ℕ) (name : List ℕ)
    → All IsNameChar name
    → length name ≤ n
    → take_while stays (low_chars n 0 name) ≡ name
unfolding take_while
low_chars-name zero [] chars fits = refl
low_chars-name zero (c ∷ name) chars fits = absurd (omega arith)
low_chars-name (suc n) [] chars fits = refl
low_chars-name (suc n) (c ∷ name) ((some_char, char), chars) fits =
    let low : c % 2 ^ 8 ≡ c = omega arith in
    let on : stays c ≡ true = ground arith in
    ap (λ r. take_while stays (c % 2 ^ 8 ∷ r)) (low_chars_behind n 0 c name)
    ∙ ap (λ d. take_while stays (d ∷ low_chars n 0 name)) low
    ∙ if-true _ _ on
    ∙ ap (λ r. c ∷ r) (low_chars-name n name chars (omega arith))

pub lfn_copy_part-lfn_entry :
    (checksum : ℕ) (name : List ℕ)
    → All IsNameChar name
    → length name ≤ 13
    → lfn_copy_part (lfn_chars (lfn_entry 1 checksum name 1)) ≡ name
unfolding lfn_copy_part
lfn_copy_part-lfn_entry checksum name chars short = low_chars-name 13 name chars short
