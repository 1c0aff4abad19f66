-- ===== src/Format/Tests.antt =====
-- The formatted output on small formats.
use hatcher.Base.{ℕ, ◌≡◌, refl, true, List, [], ◌∷◌, arith}
use hatcher.Format.{written, undefined, number, format_loop, snprintf, int_to_str}
use hatcher.Format.Bounded.{Fits, snprintf-Fits}

-- -42
abbrev minus_42 : ℕ
minus_42 = 4294967254

-- "%d:"
abbrev fmt : List ℕ
fmt = b'%' ∷ b'd' ∷ b':' ∷ []

snprintf-Fits_example : Fits 3 (snprintf 3 fmt (number 1024 ∷ []))
snprintf-Fits_example = snprintf-Fits 3 fmt (number 1024 ∷ []) (omega arith)

snprintf_cut : snprintf 3 fmt (number 1024 ∷ []) ≡ written (b'1' ∷ b'0' ∷ [])
unfolding snprintf
snprintf_cut = refl

-- The zeros of "%05d" come before the sign.
zero_padded_negative :
    format_loop true 6 (b'%' ∷ b'0' ∷ b'5' ∷ b'd' ∷ []) (number minus_42 ∷ []) []
    ≡ written (b'0' ∷ b'0' ∷ b'-' ∷ b'4' ∷ b'2' ∷ [])
unfolding format_loop
zero_padded_negative = refl

-- A format that ends with % is read behind its end.
percent_at_end : format_loop true 2 (b'%' ∷ []) [] [] ≡ undefined
unfolding format_loop
percent_at_end = refl

int_to_str_run : int_to_str minus_42 ≡ b'-' ∷ b'4' ∷ b'2' ∷ []
unfolding int_to_str
int_to_str_run = refl
