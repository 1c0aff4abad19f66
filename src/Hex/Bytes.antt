-- ===== src/Hex/Bytes.antt =====
-- The digits that `kprint_hex` prints are read back by `hexstr_to_bytes`.
use hatcher.Base.{
  ℕ, zero, suc, ◌+◌, ◌*◌, ◌/◌, ◌%◌, ◌<◌, ◌≡◌, refl, ap, ◌∙◌, List, [], ◌∷◌, ◌++◌, arith, u8,
}
use mathlib.Core.List.{append_assoc}
use hatcher.Format.{digit_char}
use hatcher.Hex.{hex_loop, hex_char_to_byte, hexstr_to_bytes}

hex_char_to_byte-digit_char : (d : ℕ) → d < 16 → hex_char_to_byte (digit_char b'A' d) ≡ d
hex_char_to_byte-digit_char d h = ground arith

-- The last `n` bytes of a number, the highest one first.
abbrev pub big_endian : ℕ → ℕ → List ℕ
big_endian zero v = []
big_endian (suc n) v = big_endian n (v / 256) ++ (v % 256 ∷ [])

two_digits :
    (m v : ℕ) (s : List ℕ)
    → hexstr_to_bytes (suc m) (digit_char b'A' (v / 16 % 16) ∷ digit_char b'A' (v % 16) ∷ s)
      ≡ v % 256 ∷ hexstr_to_bytes m s
unfolding hexstr_to_bytes
two_digits m v s =
    let high = hex_char_to_byte-digit_char (v / 16 % 16) (omega arith) in
    let low = hex_char_to_byte-digit_char (v % 16) (omega arith) in
    let byte : u8 (v / 16 % 16 * 16) + v % 16 ≡ v % 256 = omega arith in
    rw (high, low) (ap (λ b. b ∷ hexstr_to_bytes m s) byte)

hex_step :
    (k v : ℕ) (s : List ℕ)
    → hex_loop (suc (suc k)) v s
      ≡ hex_loop k (v / 16 / 16) (digit_char b'A' (v / 16 % 16) ∷ digit_char b'A' (v % 16) ∷ s)
unfolding hex_loop
hex_step k v s = refl

hex_end : (v : ℕ) (s : List ℕ) → hex_loop (zero * 2) v s ≡ s
unfolding hex_loop
hex_end v s = refl

read_back :
    (n m v : ℕ) (s : List ℕ)
    → hexstr_to_bytes (n + m) (hex_loop (n * 2) v s) ≡ big_endian n v ++ hexstr_to_bytes m s
read_back zero m v s =
    let none_left : zero + m ≡ m = omega arith in rw (none_left, hex_end v s) refl
read_back (suc n) m v s =
    let more : suc n + m ≡ n + suc m = omega arith in
    let two : suc n * 2 ≡ suc (suc (n * 2)) = omega arith in
    let shifted : v / 16 / 16 ≡ v / 256 = omega arith in
    rw
      (
        more,
        two,
        hex_step (n * 2) v s,
        append_assoc (big_endian n (v / 256)) (v % 256 ∷ []) (hexstr_to_bytes m s),
        shifted,
      )
      (read_back n (suc m) (v / 256) (digit_char b'A' (v / 16 % 16) ∷ digit_char b'A' (v % 16) ∷ s)
        ∙ ap (λ t. big_endian n (v / 256) ++ t) (two_digits m v s))

-- `hexstr_to_bytes` of the 2n digits that the loop of `kprint_hex` makes gives the n low bytes of
-- the value, the highest one first.
pub hexstr_to_bytes-hex_loop :
    (n v : ℕ) → hexstr_to_bytes n (hex_loop (n * 2) v []) ≡ big_endian n v
hexstr_to_bytes-hex_loop n v =
    let same : n ≡ n + 0 = omega arith in
    ap (λ k. hexstr_to_bytes k (hex_loop (n * 2) v [])) same ∙ read_back n 0 v [] ∙ at_end
  where
    append_nil : (r : List ℕ) → r ++ [] ≡ r
    append_nil [] = refl
    append_nil (c ∷ r) = ap (λ t. c ∷ t) (append_nil r)

    at_end : big_endian n v ++ hexstr_to_bytes 0 [] ≡ big_endian n v
    at_end = unfold hexstr_to_bytes in append_nil (big_endian n v)
