-- ===== src/Text.antt =====
-- libc/string.c. A C string is the list of its bytes before the NUL, a pointer into it what is left
-- of the list from there; the functions on raw memory take the bytes as a function of the address.
pub mod Memory
pub mod Compare
pub mod Number
pub mod Search
pub mod Trim
pub mod Words
pub mod Split
mod Tests
use hatcher.Base.{
  ℕ, zero, suc, ◌+◌, ◌-◌, ◌*◌, ◌/◌, ◌%◌, ◌^◌, Bool, true, false, not, Option, none, some, List, [],
  ◌∷◌, ◌++◌, ◌==◌, ◌&&◌, ◌||◌, ltb, leb, if◌then◌else◌, u32, length, take, get_or, update,
}
use hatcher.Base.Int.{ℤ, pos, negsuc, signed8, signed32, ◌-ℤ◌}

-- The C string that bytes in memory hold.
unfoldable pub until_zero : List ℕ → List ℕ
until_zero [] = []
until_zero (c ∷ s) = if c == 0 then [] else c ∷ until_zero s

-- `while (n--) *d++ = *s++`
unfoldable pub copy_up : ℕ → ℕ → ℕ → (ℕ → ℕ) → ℕ → ℕ
copy_up zero d s f = f
copy_up (suc n) d s f = copy_up n (d + 1) (s + 1) (update f d (f s))

-- `while (n--) *--d = *--s`
unfoldable pub copy_down : ℕ → ℕ → ℕ → (ℕ → ℕ) → ℕ → ℕ
copy_down zero d s f = f
copy_down (suc n) d s f = copy_down n (d - 1) (s - 1) (update f (d - 1) (f (s - 1)))

unfoldable pub memcpy : ℕ → ℕ → ℕ → (ℕ → ℕ) → ℕ → ℕ
unfolding copy_up
memcpy dest src n f = copy_up n dest src f

unfoldable pub memmove : ℕ → ℕ → ℕ → (ℕ → ℕ) → ℕ → ℕ
unfolding copy_up copy_down
memmove dest src n f =
    if ltb dest src
    then copy_up n dest src f
    else if ltb src dest
    then copy_down n (dest + n) (src + n) f
    else f

unfoldable pub memset : ℕ → ℕ → ℕ → (ℕ → ℕ) → ℕ → ℕ
memset s c zero f = f
memset s c (suc n) f = memset (s + 1) c n (update f s (c % 2 ^ 8))

-- `*s1 - *s2`, for two bytes read as `char`
abbrev pub char_diff : ℕ → ℕ → ℤ
char_diff c d = signed8 c -ℤ signed8 d

-- The pointers have moved on when the difference is taken.
unfoldable pub memcmp : ℕ → ℕ → ℕ → (ℕ → ℕ) → ℤ
unfolding ◌-ℤ◌
memcmp p q zero f = pos 0
memcmp p q (suc n) f =
    if f p == f q then memcmp (p + 1) (q + 1) n f else char_diff (f (p + 1)) (f (q + 1))

abbrev pub toupper : ℕ → ℕ
toupper c = if leb b'a' c && leb c b'z' then c - b'a' + b'A' else c

unfoldable pub strcmp : List ℕ → List ℕ → ℤ
unfolding ◌-ℤ◌
strcmp [] [] = char_diff 0 0
strcmp [] (d ∷ t) = char_diff 0 d
strcmp (c ∷ s) [] = char_diff c 0
strcmp (c ∷ s) (d ∷ t) = if c == d then strcmp s t else char_diff c d

abbrev pub strlen : List ℕ → ℕ
strlen s = length s

-- What `dest` holds afterwards.
abbrev pub strncpy : List ℕ → ℕ → List ℕ
strncpy src n = take n src

-- The loop of `itoa`; `i` is the place that is written next. `-num` is `num` for the least `int`,
-- and then each remainder is negative: `below` says so.
unfoldable pub itoa_loop : Bool → ℕ → ℕ → List ℕ → List ℕ
itoa_loop below zero num s = s
itoa_loop below (suc i) num s =
    let rest =
      itoa_loop below i (num / 10) ((if below then b'0' - num % 10 else b'0' + num % 10) ∷ s) in
    if num == 0 then s else rest

unfoldable pub itoa : ℤ → List ℕ
unfolding itoa_loop
itoa (pos n) = if n == 0 then b'0' ∷ [] else itoa_loop false 10 n []
itoa (negsuc n) = b'-' ∷ itoa_loop (n + 1 == 2 ^ 31) 10 (n + 1) []

abbrev pub is_blank : ℕ → Bool
is_blank c = c == b' ' || c == b'\t' || c == b'\n'

abbrev pub is_digit : ℕ → Bool
is_digit c = leb b'0' c && leb c b'9'

unfoldable pub skip_while : (ℕ → Bool) → List ℕ → List ℕ
skip_while test [] = []
skip_while test (c ∷ s) = if test c then skip_while test s else c ∷ s

-- The `int` result as a word, with the wrap-around of the machine.
unfoldable pub atoi_digits : List ℕ → ℕ → ℕ
atoi_digits [] result = result
atoi_digits (c ∷ s) result =
    if is_digit c then atoi_digits s (u32 (result * 10 + (c - b'0'))) else result

-- From the sign on.
unfoldable pub atoi_sign : List ℕ → ℤ
unfolding atoi_digits
atoi_sign [] = pos 0
atoi_sign (c ∷ s) =
    if c == b'-'
    then signed32 (u32 (2 ^ 32 - atoi_digits s 0))
    else if c == b'+'
    then signed32 (atoi_digits s 0)
    else signed32 (atoi_digits (c ∷ s) 0)

unfoldable pub atoi : List ℕ → ℤ
unfolding skip_while atoi_sign
atoi s = atoi_sign (skip_while is_blank s)

-- `while (len > 0 && s[len-1] == ' ') s[--len] = 0`
unfoldable pub trim_end : ℕ → List ℕ → List ℕ
trim_end zero s = s
trim_end (suc len) s =
    let rest = trim_end len (take len s) in if get_or s len 0 == b' ' then rest else s

unfoldable pub trim : List ℕ → List ℕ
unfolding skip_while trim_end
trim s = let t = skip_while (λ c. c == b' ') s in trim_end (strlen t) t

unfoldable pub strchr : List ℕ → ℕ → Option (List ℕ)
strchr [] c = if c == 0 then some [] else none
strchr (d ∷ s) c = if d == c % 2 ^ 8 then some (d ∷ s) else strchr s c

-- The inner loop of `strstr`: whether it comes to the end of the needle.
unfoldable pub begins : List ℕ → List ℕ → Bool
begins h [] = true
begins [] (d ∷ n) = false
begins (c ∷ h) (d ∷ n) = (c == d) && begins h n

unfoldable pub strstr : List ℕ → List ℕ → Option (List ℕ)
unfolding begins
strstr [] [] = some []
strstr [] (d ∷ n) = none
strstr (c ∷ h) n = if begins (c ∷ h) n then some (c ∷ h) else strstr h n

-- The inner loop of `split`: a word of at most `room` characters, and what is left.
unfoldable pub split_word : ℕ → ℕ → List ℕ → List ℕ × List ℕ
split_word delimiter zero s = ([], s)
split_word delimiter (suc room) [] = ([], [])
split_word delimiter (suc room) (c ∷ s) =
    let rest = split_word delimiter room s in
    if c == delimiter then ([], c ∷ s) else (c ∷ rest.0, rest.1)

-- The body of the outer loop of `split` behind the delimiters, where it does not stop at the end of
-- the text; `rest` is the loop from then on.
unfoldable pub split_next : ℕ → (List ℕ → List (List ℕ)) → List ℕ → List (List ℕ)
unfolding split_word
split_next delimiter rest [] = []
split_next delimiter rest (c ∷ s) =
    let word = split_word delimiter 63 (c ∷ s) in word.0 ∷ rest word.1

-- The outer loop, while `n` places for words are left.
unfoldable pub split_loop : ℕ → ℕ → List ℕ → List (List ℕ)
unfolding skip_while split_next
split_loop delimiter zero s = []
split_loop delimiter (suc n) s =
    split_next delimiter (λ t. split_loop delimiter n t) (skip_while (λ c. c == delimiter) s)

-- `*count` is the number of the words.
unfoldable pub split : ℕ → List ℕ → List (List ℕ)
unfolding split_loop
split delimiter s = split_loop delimiter 64 s

abbrev pub found : Option (List ℕ) → Bool
found none = false
found (some s) = true

unfoldable pub take_while : (ℕ → Bool) → List ℕ → List ℕ
take_while test [] = []
take_while test (c ∷ s) = if test c then c ∷ take_while test s else []

-- What `strtok` does behind the leading delimiters. The result is the token and the new `last`, none
-- where it is NULL; the byte behind the token is overwritten with a NUL, and so left out of both.
unfoldable pub strtok_token : List ℕ → List ℕ → Option (List ℕ) × Option (List ℕ)
unfolding strchr skip_while take_while
strtok_token delim [] = (none, none)
strtok_token delim (c ∷ s) = (
  some (take_while (λ d. not (found (strchr delim d))) (c ∷ s)),
  elim (skip_while (λ d. not (found (strchr delim d))) (c ∷ s)) [ [] ↦ none | ◌∷◌ d v ↦ some v ],
)

-- `strtok` where `last` is not NULL.
unfoldable pub strtok_from : List ℕ → List ℕ → Option (List ℕ) × Option (List ℕ)
unfolding strchr skip_while strtok_token
strtok_from s delim = strtok_token delim (skip_while (λ c. found (strchr delim c)) s)

-- The third argument is `last`, none where it is NULL.
unfoldable pub strtok :
    Option (List ℕ) → List ℕ → Option (List ℕ) → Option (List ℕ) × Option (List ℕ)
unfolding strtok_from
strtok (some str) delim last = strtok_from str delim
strtok none delim none = (none, none)
strtok none delim (some s) = strtok_from s delim
