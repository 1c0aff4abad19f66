-- ===== src/Format.antt =====
-- drivers/video/vga_default.c, the formatted output: `kprintf`, `kvprintf`, `snprintf`, and the number
-- formats. A buffer is the list of the bytes written to it so far. Where the C code would read behind
-- the end of the format or write behind the buffer of a number, and where an argument is missing or is
-- no string for %s, the result is `undefined`; where a loop has used up its rounds, it is `out_of_rounds`.
pub mod Digits
pub mod Fuel
pub mod Bounded
mod Tests
use hatcher.Base.{
  ℕ, zero, suc, ◌+◌, ◌-◌, ◌*◌, ◌/◌, ◌%◌, ◌^◌, Bool, true, false, not, Option, none, some, List, [],
  ◌∷◌, ◌++◌, ◌==◌, ◌&&◌, ◌||◌, ltb, leb, if◌then◌else◌, u8, u32, u64, length, replicate, get_or,
  set,
}
use hatcher.Base.Int.{ℤ, pos, negsuc}
use hatcher.Text.{is_digit, until_zero}
use hatcher.Console.{Screen, kprint, putchar}

-- What `va_arg` finds: a register, or a pointer to a string.
pub data Arg : Type 0 where
  number : ℕ → Arg
  text : List ℕ → Arg

abbrev pub digit_char : ℕ → ℕ → ℕ
digit_char letter d = if ltb d 10 then b'0' + d else letter + d - 10

-- The `do` loops that fill a buffer with digits, the last one first; the count is the number of
-- rounds that the buffer has room for.
unfoldable pub digits_up : ℕ → ℕ → ℕ → ℕ → List ℕ
digits_up base letter zero v = []
digits_up base letter (suc k) v =
    let rest = digits_up base letter k (v / base) in
    digit_char letter (v % base) ∷ (if v / base == 0 then [] else rest)

-- `while (i--) buf[len++] = numbuf[i]`
unfoldable pub reverse_onto : List ℕ → List ℕ → List ℕ
reverse_onto [] s = s
reverse_onto (c ∷ r) s = reverse_onto r (c ∷ s)

abbrev pub pad_char : Bool → ℕ
pad_char zero_pad = if zero_pad then b'0' else b' '

-- A number out of `numbuf`, filled up to the width; `numbuf` has 32 bytes.
unfoldable pub put_number : ℕ → Bool → List ℕ → Option (List ℕ)
unfolding reverse_onto
put_number width zero_pad numbuf =
    if ltb 32 width
    then none
    else some (reverse_onto (numbuf ++ replicate (width - length numbuf) (pad_char zero_pad)) [])

abbrev pub is_neg : ℕ → Bool
is_neg w = leb (2 ^ 31) w

-- `is_neg ? -val : val`, as an `unsigned int`
abbrev pub magnitude : ℕ → ℕ
magnitude w = if is_neg w then u32 (2 ^ 32 - w) else w

abbrev pub minus_sign : Bool → List ℕ
minus_sign neg = if neg then b'-' ∷ [] else []

unfoldable pub strip_zero : List ℕ → Bool × List ℕ
strip_zero [] = (false, [])
strip_zero (c ∷ f) = if c == b'0' then (true, f) else (false, c ∷ f)

unfoldable pub read_width : List ℕ → ℕ → ℕ × List ℕ
read_width [] width = (width, [])
read_width (c ∷ f) width =
    let rest = read_width f (width * 10 + (c - b'0')) in if is_digit c then rest else (width, c ∷ f)

-- The letters l; a single one is taken by `kprintf` only.
unfoldable pub strip_l : Bool → List ℕ → ℕ × List ℕ
strip_l single [] = (0, [])
strip_l single (c ∷ []) = if single && c == b'l' then (1, []) else (0, c ∷ [])
strip_l single (c ∷ d ∷ f) =
    if c == b'l' && d == b'l'
    then (2, f)
    else if single && c == b'l'
    then (1, d ∷ f)
    else (0, c ∷ d ∷ f)

abbrev pub with_args : List Arg → Option (List ℕ) → Option (List ℕ × List Arg)
with_args args none = none
with_args args (some s) = some (s, args)

-- The cases of the `switch` that take a number.
unfoldable pub convert_number : ℕ → Bool → ℕ → ℕ → ℕ → Option (List ℕ)
unfolding digits_up put_number reverse_onto
convert_number l zero_pad width c v =
    if c == b'd'
    then put_number width zero_pad
        (digits_up 10 b'a' 32 (magnitude (u32 v)) ++ minus_sign (is_neg (u32 v)))
    else if c == b'u'
    then put_number width zero_pad (digits_up 10 b'a' 32 (u32 v))
    else if c == b'x'
    then put_number width zero_pad (digits_up 16 b'a' 32 (if l == 0 then u32 v else u64 v))
    else if c == b'X'
    then put_number width zero_pad (digits_up 16 b'A' 32 (if l == 0 then u32 v else u64 v))
    else if c == b'p'
    then some (b'0' ∷ b'x' ∷ reverse_onto (digits_up 16 b'a' 32 (u64 v)) [])
    else some (u8 v ∷ [])

abbrev pub takes_number : ℕ → Bool
takes_number c = c == b'd' || c == b'u' || c == b'x' || c == b'X' || c == b'p' || c == b'c'

-- The `switch`: what is written, and the arguments that are left.
unfoldable pub convert : ℕ → Bool → ℕ → ℕ → List Arg → Option (List ℕ × List Arg)
unfolding convert_number
convert l zero_pad width c [] =
    if takes_number c || c == b's'
    then none
    else if c == b'%'
    then some (b'%' ∷ [], [])
    else some (b'%' ∷ c ∷ [], [])
convert l zero_pad width c (number v ∷ args) =
    if takes_number c
    then with_args args (convert_number l zero_pad width c v)
    else if c == b's'
    then none
    else if c == b'%'
    then some (b'%' ∷ [], number v ∷ args)
    else some (b'%' ∷ c ∷ [], number v ∷ args)
convert l zero_pad width c (text s ∷ args) =
    if takes_number c
    then none
    else if c == b's'
    then some (replicate (width - length s) (pad_char zero_pad) ++ s, args)
    else if c == b'%'
    then some (b'%' ∷ [], text s ∷ args)
    else some (b'%' ∷ c ∷ [], text s ∷ args)

-- What is read between a % and its conversion character.
unfoldable pub read_spec : Bool → List ℕ → Bool × ℕ × ℕ × List ℕ
unfolding strip_zero read_width strip_l
read_spec single f =
    let z = strip_zero f in
    let w = read_width z.1 0 in let l = strip_l single w.1 in (z.0, w.0, l.0, l.1)

-- How a loop over a format ends: its rounds are used up, it has no defined result, or these bytes have
-- been written.
pub data Printed : Type 0 where
  out_of_rounds : Printed
  undefined : Printed
  written : List ℕ → Printed

-- One round of the loop at a character `c`; `rec` are the rounds after it. It is undefined if the format
-- ends where a conversion character is read, as the loop would go on behind its end.
unfoldable pub format_round :
    Bool → (List ℕ → List Arg → List ℕ → Printed) → ℕ → List ℕ → List Arg → List ℕ → Printed
unfolding read_spec convert
format_round single rec c f args buf =
    if leb 255 (length buf)
    then written buf
    else if not (c == b'%')
    then rec f args (buf ++ (c ∷ []))
    else elim (read_spec single f).3 [
      | [] ↦ undefined
      | ◌∷◌ d f' ↦
          elim (convert (read_spec single f).2 (read_spec single f).0 (read_spec single f).1 d
            args) [ none ↦ undefined | some r ↦ rec f' r.1 (buf ++ r.0) ]
    ]

-- The loop, on fuel: the format gets shorter in each round.
unfoldable pub format_loop : Bool → ℕ → List ℕ → List Arg → List ℕ → Printed
unfolding format_round
format_loop single zero f args buf = out_of_rounds
format_loop single (suc k) [] args buf = written buf
format_loop single (suc k) (c ∷ f) args buf =
    format_round single (λ f' args' buf'. format_loop single k f' args' buf') c f args buf

-- `buf` has 256 bytes; a longer text is written behind it, and there is no result.
unfoldable pub print_buffer : Printed → Screen → Option Screen
unfolding until_zero kprint
print_buffer out_of_rounds s = none
print_buffer undefined s = none
print_buffer (written buf) s =
    if ltb 255 (length buf) then none else some (kprint (until_zero buf) s)

unfoldable pub kprintf : List ℕ → List Arg → Screen → Option Screen
unfolding format_loop print_buffer
kprintf fmt args s = print_buffer (format_loop true (suc (length fmt)) fmt args []) s

unfoldable pub kvprintf : List ℕ → List Arg → Screen → Option Screen
unfolding format_loop print_buffer
kvprintf fmt args s = print_buffer (format_loop false (suc (length fmt)) fmt args []) s

-- `if (len + 1 < size) buf[len++] = c`
abbrev pub put_if : ℕ → ℕ → List ℕ → List ℕ
put_if size c buf = if ltb (length buf + 1) size then buf ++ (c ∷ []) else buf

-- The loops that write some bytes with that test.
unfoldable pub put_all : ℕ → List ℕ → List ℕ → List ℕ
put_all size [] buf = buf
put_all size (c ∷ s) buf = put_all size s (put_if size c buf)

-- The padding and the digits of a number in `tmp`.
unfoldable pub put_padded : ℕ → ℕ → Bool → List ℕ → List ℕ → List ℕ
unfolding put_all reverse_onto
put_padded size width zero_pad tmp buf =
    put_all size (reverse_onto tmp [])
      (put_all size (replicate (width - length tmp) (pad_char zero_pad)) buf)

-- The cases of `snprintf` that take a number; the bound on the rounds is in its loops.
unfoldable pub snprintf_number : ℕ → Bool → ℕ → ℕ → ℕ → List ℕ → List ℕ
unfolding put_padded put_all digits_up reverse_onto
snprintf_number size zero_pad width c v buf =
    if c == b'd'
    then put_padded size width zero_pad
        (digits_up 10 b'a' 15 (magnitude (u32 v)) ++ minus_sign (is_neg (u32 v))) buf
    else if c == b'u'
    then put_padded size width zero_pad (digits_up 10 b'a' 15 (u32 v)) buf
    else if c == b'x'
    then put_padded size width zero_pad (digits_up 16 b'a' 15 (u32 v)) buf
    else if c == b'X'
    then put_padded size width zero_pad (digits_up 16 b'A' 15 (u32 v)) buf
    else if c == b'p'
    then put_padded size (width - 2) zero_pad (digits_up 16 b'a' 16 (u64 v))
        (put_if size b'x' (buf ++ (b'0' ∷ [])))
    else buf ++ (u8 v ∷ [])

abbrev pub with_rest : List Arg → List ℕ → Option (List ℕ × List Arg)
with_rest args buf = some (buf, args)

abbrev pub snprintf_other : ℕ → ℕ → List ℕ → List ℕ
snprintf_other size c buf =
    if c == b'%' then buf ++ (b'%' ∷ []) else put_if size c (buf ++ (b'%' ∷ []))

unfoldable pub snprintf_convert : ℕ → Bool → ℕ → ℕ → List Arg → List ℕ → Option (List ℕ × List Arg)
unfolding snprintf_number put_all
snprintf_convert size zero_pad width c [] buf =
    if takes_number c || c == b's' then none else with_rest [] (snprintf_other size c buf)
snprintf_convert size zero_pad width c (number v ∷ args) buf =
    if takes_number c
    then with_rest args (snprintf_number size zero_pad width c v buf)
    else if c == b's'
    then none
    else with_rest (number v ∷ args) (snprintf_other size c buf)
snprintf_convert size zero_pad width c (text s ∷ args) buf =
    if takes_number c
    then none
    else if c == b's'
    then with_rest args
        (put_all size s (put_all size (replicate (width - length s) (pad_char zero_pad)) buf))
    else with_rest (text s ∷ args) (snprintf_other size c buf)

unfoldable pub snprintf_round :
    ℕ → (List ℕ → List Arg → List ℕ → Printed) → ℕ → List ℕ → List Arg → List ℕ → Printed
unfolding strip_zero read_width snprintf_convert
snprintf_round size rec c f args buf =
    if leb size (length buf + 1)
    then written buf
    else if not (c == b'%')
    then rec f args (buf ++ (c ∷ []))
    else elim (read_width (strip_zero f).1 0).1 [
      | [] ↦ undefined
      | ◌∷◌ d f' ↦
          elim (snprintf_convert size (strip_zero f).0 (read_width (strip_zero f).1 0).0 d args
            buf) [ none ↦ undefined | some r ↦ rec f' r.1 r.0 ]
    ]

unfoldable pub snprintf_loop : ℕ → ℕ → List ℕ → List Arg → List ℕ → Printed
unfolding snprintf_round
snprintf_loop size zero f args buf = out_of_rounds
snprintf_loop size (suc k) [] args buf = written buf
snprintf_loop size (suc k) (c ∷ f) args buf =
    snprintf_round size (λ f' args' buf'. snprintf_loop size k f' args' buf') c f args buf

-- The bytes before the NUL; their number is the result.
unfoldable pub snprintf : ℕ → List ℕ → List Arg → Printed
unfolding snprintf_loop
snprintf size fmt args = snprintf_loop size (suc (length fmt)) fmt args []

-- The loop of `int_to_str` that turns the digits round, with `n` rounds left from `j` on.
unfoldable pub swap_ends : ℕ → ℕ → List ℕ → List ℕ
swap_ends zero j str = str
swap_ends (suc n) j str =
    let i = length str in
    swap_ends n (j + 1) (set (set str j (get_or str (i - j - 1) 0)) (i - j - 1) (get_or str j 0))

-- The digit loop of `int_to_str`. `-num` is `num` for the least `int`, and then each remainder is
-- negative: `below` says so.
unfoldable pub int_digits : Bool → ℕ → ℕ → List ℕ
int_digits below zero v = []
int_digits below (suc k) v =
    let rest = int_digits below k (v / 10) in
    if v == 0 then [] else (if below then b'0' - v % 10 else b'0' + v % 10) ∷ rest

-- `num` as a word; ten rounds are enough for its digits.
unfoldable pub int_to_str : ℕ → List ℕ
unfolding int_digits swap_ends
int_to_str num =
    let str = int_digits (num == 2 ^ 31) 10 (magnitude num) ++ minus_sign (is_neg num) in
    if num == 0 then b'0' ∷ [] else swap_ends (length str / 2) 0 str
