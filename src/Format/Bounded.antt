-- ===== src/Format/Bounded.antt =====
-- `snprintf` stays inside its buffer.
use hatcher.Base.{
  ℕ, zero, suc, ◌+◌, ◌-◌, ◌<◌, ◌≡◌, refl, Bool, true, false, not, Option, none, some, List, [], ◌∷◌,
  ◌++◌, inl, inr, arith, ◌==◌, ◌||◌, ltb, leb, if◌then◌else◌, Bool-cases, length, replicate,
  length-append, u8, u32, u64,
}
use hatcher.Format.{
  Printed, out_of_rounds, undefined, written, Arg, number, text, put_if, put_all, put_padded,
  snprintf_number, snprintf_other, snprintf_convert, snprintf_round, snprintf_loop, snprintf,
  digits_up, reverse_onto, pad_char, magnitude, is_neg, minus_sign, takes_number, read_width,
  strip_zero,
}

put_if-length : (size c : ℕ) (buf : List ℕ) → length buf < size → length (put_if size c buf) < size
put_if-length size c buf h = elim (Bool-cases (ltb (length buf + 1) size)) [
  | inl room ↦ simp room (ground (arith, length-append buf (c ∷ [])))
  | inr full ↦ simp full h
]

put_all-length :
    (size : ℕ) (s buf : List ℕ) → length buf < size → length (put_all size s buf) < size
unfolding put_all
put_all-length size [] buf h = h
put_all-length size (c ∷ s) buf h =
    put_all-length size s (put_if size c buf) (put_if-length size c buf h)

put_padded-length :
    (size width : ℕ) (z : Bool) (tmp buf : List ℕ)
    → length buf < size
    → length (put_padded size width z tmp buf) < size
unfolding put_padded
put_padded-length size width z tmp buf h =
    put_all-length size (reverse_onto tmp []) _
      (put_all-length size (replicate (width - length tmp) (pad_char z)) buf h)

one_more : (size c : ℕ) (buf : List ℕ) → length buf + 1 < size → length (buf ++ (c ∷ [])) < size
one_more size c buf h = omega (arith, length-append buf (c ∷ []))

-- A conditional whose two branches fit.
fits_if :
    (size : ℕ) (b : Bool) (s t : List ℕ)
    → length s < size
    → length t < size
    → length (if b then s else t) < size
fits_if size true s t h h' = h
fits_if size false s t h h' = h'

snprintf_number-length :
    (size : ℕ) (z : Bool) (width c v : ℕ) (buf : List ℕ)
    → length buf + 1 < size
    → length (snprintf_number size z width c v buf) < size
snprintf_number-length size z width c v buf h =
    let low : length buf < size = omega arith in
    rw (cases size z width c v buf) (
      fits_if size (c == b'd') _ _ (put_padded-length size width z _ buf low) (
        fits_if size (c == b'u') _ _ (put_padded-length size width z _ buf low) (
          fits_if size (c == b'x') _ _ (put_padded-length size width z _ buf low) (
            fits_if size (c == b'X') _ _ (put_padded-length size width z _ buf low) (
              fits_if size (c == b'p') _ _
                (put_padded-length size (width - 2) z _ _
                  (put_if-length size b'x' (buf ++ (b'0' ∷ [])) (one_more size b'0' buf h)))
                (one_more size (u8 v) buf h))))))
  where
    cases :
        (size : ℕ) (z : Bool) (width c v : ℕ) (buf : List ℕ)
        → snprintf_number size z width c v buf ≡ (
            if c == b'd'
            then put_padded size width z
                (digits_up 10 b'a' 15 (magnitude (u32 v)) ++ minus_sign (is_neg (u32 v)))
                buf
            else if c == b'u'
            then put_padded size width z (digits_up 10 b'a' 15 (u32 v)) buf
            else if c == b'x'
            then put_padded size width z (digits_up 16 b'a' 15 (u32 v)) buf
            else if c == b'X'
            then put_padded size width z (digits_up 16 b'A' 15 (u32 v)) buf
            else if c == b'p'
            then put_padded size
                (width - 2)
                z
                (digits_up 16 b'a' 16 (u64 v))
                (put_if size b'x' (buf ++ (b'0' ∷ [])))
            else buf ++ (u8 v ∷ []))
    cases size z width c v buf = unfold snprintf_number in refl

snprintf_other-length :
    (size c : ℕ) (buf : List ℕ) → length buf + 1 < size → length (snprintf_other size c buf) < size
snprintf_other-length size c buf h =
    fits_if size (c == b'%') _ _ (one_more size b'%' buf h)
      (put_if-length size c (buf ++ (b'%' ∷ [])) (one_more size b'%' buf h))

abbrev Within : ℕ → Option (List ℕ × List Arg) → Type 0
Within size none = Unit
Within size (some r) = length r.0 < size

Within-if :
    (size : ℕ) (b : Bool) (o p : Option (List ℕ × List Arg))
    → Within size o
    → Within size p
    → Within size (if b then o else p)
Within-if size true o p h h' = h
Within-if size false o p h h' = h'

snprintf_convert-Within :
    (size : ℕ) (z : Bool) (width c : ℕ) (args : List Arg) (buf : List ℕ)
    → length buf + 1 < size
    → Within size (snprintf_convert size z width c args buf)
unfolding snprintf_convert
snprintf_convert-Within size z width c [] buf h =
    Within-if size (takes_number c || c == b's') none _ tt (snprintf_other-length size c buf h)
snprintf_convert-Within size z width c (number v ∷ args) buf h =
    Within-if size (takes_number c) _ _ (snprintf_number-length size z width c v buf h)
      (Within-if size (c == b's') none _ tt (snprintf_other-length size c buf h))
snprintf_convert-Within size z width c (text s ∷ args) buf h =
    Within-if size (takes_number c) none _ tt (
      Within-if size (c == b's') _ _
        (put_all-length size s _
          (put_all-length size (replicate (width - length s) (pad_char z)) buf (omega arith)))
        (snprintf_other-length size c buf h))

abbrev pub Fits : ℕ → Printed → Type 0
Fits size out_of_rounds = Unit
Fits size undefined = Unit
Fits size (written buf) = length buf < size

Fits-or :
    (size : ℕ) (b : Bool) (o p : Printed)
    → (b ≡ true → Fits size o)
    → (b ≡ false → Fits size p)
    → Fits size (if b then o else p)
Fits-or size true o p h h' = h refl
Fits-or size false o p h h' = h' refl

converted :
    (size : ℕ) (rec : List ℕ → List Arg → List ℕ → Printed) (f : List ℕ)
    (o : Option (List ℕ × List Arg))
    → ((f' : List ℕ) (args' : List Arg) (buf' : List ℕ)
        → length buf' < size
        → Fits size (rec f' args' buf'))
    → Within size o
    → Fits size (elim o [ none ↦ undefined | some r ↦ rec f r.1 r.0 ])
converted size rec f none good h = tt
converted size rec f (some (buf, args)) good h = good f args buf h

snprintf_round-Fits :
    (size : ℕ) (rec : List ℕ → List Arg → List ℕ → Printed) (c : ℕ) (f : List ℕ) (args : List Arg)
    (buf : List ℕ)
    → ((f' : List ℕ) (args' : List Arg) (buf' : List ℕ)
        → length buf' < size
        → Fits size (rec f' args' buf'))
    → length buf < size
    → Fits size (snprintf_round size rec c f args buf)
unfolding snprintf_round
snprintf_round-Fits size rec c f args buf good low =
    Fits-or size (leb size (length buf + 1)) _ _ (λ full. low)
      λ room.
        Fits-or size (not (c == b'%')) _ _
          (λ plain. good f args (buf ++ (c ∷ [])) (one_more size c buf (ground arith)))
          (λ percent. spec (read_width (strip_zero f).1 0).1 (ground arith))
  where
    spec :
        (g : List ℕ)
        → length buf + 1 < size
        → Fits size (elim g [
          | [] ↦ undefined
          | ◌∷◌ d f' ↦
              elim (snprintf_convert size
                (strip_zero f).0
                (read_width (strip_zero f).1 0).0
                d
                args
                buf) [ none ↦ undefined | some r ↦ rec f' r.1 r.0 ]
        ])
    spec [] room = tt
    spec (d ∷ g) room =
        converted size rec g
          (snprintf_convert size (strip_zero f).0 (read_width (strip_zero f).1 0).0 d args buf) good
          (snprintf_convert-Within size (strip_zero f).0 (read_width (strip_zero f).1 0).0 d args
            buf room)

snprintf_loop-Fits :
    (size k : ℕ) (f : List ℕ) (args : List Arg) (buf : List ℕ)
    → length buf < size
    → Fits size (snprintf_loop size k f args buf)
snprintf_loop-Fits size zero f args buf low = unfold snprintf_loop in tt
snprintf_loop-Fits size (suc k) [] args buf low = unfold snprintf_loop in low
snprintf_loop-Fits size (suc k) (c ∷ f) args buf low = rw (round size k c f args buf) (
    snprintf_round-Fits size (snprintf_loop size k) c f args buf
      (λ f' args' buf' low'. snprintf_loop-Fits size k f' args' buf' low') low)
  where
    round :
        (size k c : ℕ) (f : List ℕ) (args : List Arg) (buf : List ℕ)
        → snprintf_loop size (suc k) (c ∷ f) args buf
          ≡ snprintf_round size (snprintf_loop size k) c f args buf
    round size k c f args buf = unfold snprintf_loop in refl

-- What `snprintf` writes, with the NUL behind it, fits into a buffer of `size` bytes, if that is not 0.
pub snprintf-Fits :
    (size : ℕ) (fmt : List ℕ) (args : List Arg) → 0 < size → Fits size (snprintf size fmt args)
unfolding snprintf
snprintf-Fits size fmt args some_room =
    snprintf_loop-Fits size (suc (length fmt)) fmt args [] some_room
