-- ===== src/Text/Tests.antt =====
-- The string functions on small texts, and their theorems there.
use hatcher.Base.{
  ℕ, zero, suc, ◌+◌, ◌-◌, ◌%◌, ◌^◌, ◌<◌, ◌≡◌, refl, List, [], ◌∷◌, arith, if◌then◌else◌, ◌==◌, All,
}
use hatcher.Base.Int.{pos, negsuc}
use hatcher.Text.{memcpy, memmove, memset, memcmp, char_diff, itoa, atoi, split}
use hatcher.Text.Memory.{within, memmove_lem, memset_lem}
use hatcher.Text.Compare.{IsChar, memcmp_lem}
use hatcher.Text.Number.{atoi-itoa}

abbrev numbered : ℕ → ℕ
numbered x = x

-- Four bytes are moved up by two.
memmove_example :
    memmove 102 100 4 numbered 105
    ≡ (if within 102 4 105 then numbered (100 + (105 - 102)) else numbered 105)
memmove_example = memmove_lem 102 100 4 105 numbered

-- Where the destination begins inside the source, `memcpy` reads bytes that it has written.
memcpy_overlap : memcpy 102 100 4 numbered 105 ≡ 101
unfolding memcpy
memcpy_overlap = refl

memset_example : memset 10 300 5 numbered 12 ≡ (if within 10 5 12 then 300 % 2 ^ 8 else numbered 12)
memset_example = memset_lem 10 300 5 12 numbered

-- "dir", and "dim"
abbrev dir : List ℕ
dir = b'd' ∷ b'i' ∷ b'r' ∷ []

abbrev dim : List ℕ
dim = b'd' ∷ b'i' ∷ b'm' ∷ []

dir-IsChar : All IsChar dir
dir-IsChar = omega arith

dim-IsChar : All IsChar dim
dim-IsChar = omega arith

-- Two ranges of three bytes that differ in the second.
abbrev two_ranges : ℕ → ℕ
two_ranges zero = 7
two_ranges (suc zero) = 1
two_ranges (suc (suc zero)) = 5
two_ranges (suc (suc (suc zero))) = 7
two_ranges (suc (suc (suc (suc zero)))) = 2
two_ranges (suc (suc (suc (suc (suc x))))) = 5

memcmp_example :
    memcmp 0 3 3 two_ranges
    ≡ (if 1 == 3 then pos 0 else char_diff (two_ranges (0 + 1 + 1)) (two_ranges (3 + 1 + 1)))
memcmp_example = memcmp_lem 0 3 3 1 two_ranges (omega arith) same (λ lt e. omega arith)
  where
    same : (k : ℕ) → k < 1 → two_ranges (0 + k) ≡ two_ranges (3 + k)
    same zero lt = refl
    same (suc k) lt = absurd (omega arith)

-- The ranges differ, and yet the result is 0.
memcmp_misses : memcmp 0 3 3 two_ranges ≡ pos 0
unfolding memcmp
memcmp_misses = refl

atoi-itoa_example : (atoi (itoa (pos 1024)) ≡ pos 1024) × (atoi (itoa (negsuc 79)) ≡ negsuc 79)
atoi-itoa_example = atoi-itoa 1024 79 (omega arith) (omega arith)

-- The least `int` is printed as "-./,),(-*,("
itoa_least :
    itoa (negsuc (2 ^ 31 - 1))
    ≡ b'-' ∷ b'.' ∷ b'/' ∷ b',' ∷ b')' ∷ b',' ∷ b'(' ∷ b'-' ∷ b'*' ∷ b',' ∷ b'(' ∷ []
unfolding itoa
itoa_least = refl

-- "  cd a "
abbrev command : List ℕ
command = b' ' ∷ b' ' ∷ b'c' ∷ b'd' ∷ b' ' ∷ b'a' ∷ b' ' ∷ []

split_run : split b' ' command ≡ (b'c' ∷ b'd' ∷ []) ∷ (b'a' ∷ []) ∷ []
unfolding split
split_run = refl
