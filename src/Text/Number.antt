-- ===== src/Text/Number.antt =====
-- `itoa` and `atoi`.
use hatcher.Base.{
  ℕ, zero, suc, ◌+◌, ◌-◌, ◌*◌, ◌/◌, ◌%◌, ◌^◌, ◌≤◌, ◌<◌, ◌≡◌, ◌≢◌, refl, sym, ap, ◌∙◌, true, false,
  List, [], ◌∷◌, inl, inr, arith, ◌==◌, ltb, if◌then◌else◌, Bool-cases, ==_iff, All, u32, length,
}
use hatcher.Base.Int.{pos, negsuc, signed32}
use hatcher.Text.{itoa_loop, itoa, is_blank, is_digit, skip_while, atoi_digits, atoi_sign, atoi}

-- The number that a list of digits spells, behind one that spells `a`.
unfoldable pub value : List ℕ → ℕ → ℕ
value [] a = a
value (c ∷ s) a = value s (a * 10 + (c - b'0'))

abbrev pub power_of_ten : ℕ → ℕ
power_of_ten zero = 1
power_of_ten (suc i) = power_of_ten i * 10

abbrev pub IsDigit : ℕ → Type 0
IsDigit c = is_digit c ≡ true

value-itoa_loop :
    (i num : ℕ) (s : List ℕ)
    → num < power_of_ten i
    → value (itoa_loop false i num s) 0 ≡ value s num
unfolding value itoa_loop
value-itoa_loop zero num s h = let none_left : num ≡ 0 = omega arith in rw none_left refl
value-itoa_loop (suc i) num s h = elim (Bool-cases (num == 0)) [
  | inl none_left ↦ let same : num ≡ 0 = (==_iff _ _).0 none_left in rw same refl
  | inr more ↦
      let joined : num / 10 * 10 + (b'0' + num % 10 - b'0') ≡ num = omega arith in
      simp more
        (value-itoa_loop i (num / 10) ((b'0' + num % 10) ∷ s) (omega arith) ∙ ap (value s) joined)
]

itoa_loop-IsDigit : (i num : ℕ) (s : List ℕ) → All IsDigit s → All IsDigit (itoa_loop false i num s)
unfolding itoa_loop
itoa_loop-IsDigit zero num s h = h
itoa_loop-IsDigit (suc i) num s h = elim (Bool-cases (num == 0)) [
  | inl none_left ↦ simp none_left h
  | inr more ↦
      let digit : is_digit (b'0' + num % 10) ≡ true = ground arith in
      simp more (itoa_loop-IsDigit i (num / 10) ((b'0' + num % 10) ∷ s) (digit, h))
]

value_ge : (s : List ℕ) (a : ℕ) → a ≤ value s a
unfolding value
value_ge [] a = omega arith
value_ge (c ∷ s) a = omega (arith, value_ge s (a * 10 + (c - b'0')))

atoi_digits-value :
    (s : List ℕ) (a : ℕ) → All IsDigit s → value s a < 2 ^ 32 → atoi_digits s a ≡ value s a
unfolding atoi_digits value
atoi_digits-value [] a h small = refl
atoi_digits-value (c ∷ s) a h small =
    let next = a * 10 + (c - b'0') in
    let fits : u32 next ≡ next = omega (arith, value_ge s next) in
    simp (h.0, fits) (atoi_digits-value s next h.1 small)

atoi-digits : (s : List ℕ) → All IsDigit s → 0 < length s → atoi s ≡ signed32 (atoi_digits s 0)
unfolding atoi skip_while atoi_sign
atoi-digits [] h more = absurd (omega arith)
atoi-digits (c ∷ s) h more =
    let digit = h.0 in
    let no_blank : is_blank c ≡ false = ground arith in
    let no_minus : (c == b'-') ≡ false = ground arith in
    let no_plus : (c == b'+') ≡ false = ground arith in simp (no_blank, no_minus, no_plus)

atoi_minus : (s : List ℕ) → atoi (b'-' ∷ s) ≡ signed32 (u32 (2 ^ 32 - atoi_digits s 0))
unfolding atoi skip_while atoi_sign
atoi_minus s = refl

-- The digits of a number below 2^31 + 1.
abbrev digits : ℕ → List ℕ
digits n = itoa_loop false 10 n []

read_digits : (n : ℕ) → n < 2 ^ 32 → atoi_digits (digits n) 0 ≡ n
unfolding value
read_digits n small =
    let spelled : value (digits n) 0 ≡ n = value-itoa_loop 10 n [] (omega arith) in
    atoi_digits-value (digits n) 0 (itoa_loop-IsDigit 10 n [] tt) (omega arith) ∙ spelled

spelled : (n : ℕ) → n < 2 ^ 32 → value (digits n) 0 ≡ n
unfolding value
spelled n small = value-itoa_loop 10 n [] (omega arith)

some_digits : (n : ℕ) (s : List ℕ) → n ≢ 0 → value s 0 ≡ n → 0 < length s
unfolding value
some_digits n [] ne e = absurd (ne (sym e))
some_digits n (c ∷ s) ne e = omega arith

signed32_pos : (n : ℕ) → n < 2 ^ 31 → signed32 n ≡ pos n
signed32_pos n h = ground arith

signed32_neg : (n : ℕ) → n + 1 < 2 ^ 31 → signed32 (u32 (2 ^ 32 - (n + 1))) ≡ negsuc n
signed32_neg n h =
    let word : u32 (2 ^ 32 - (n + 1)) ≡ 2 ^ 32 - (n + 1) = omega arith in
    let high : ltb (2 ^ 32 - (n + 1)) (2 ^ 31) ≡ false = ground arith in
    let back : 2 ^ 32 - (2 ^ 32 - (n + 1)) - 1 ≡ n = omega arith in rw (word, high, back) refl

pub itoa_pos : (n : ℕ) → itoa (pos n) ≡ (if n == 0 then b'0' ∷ [] else digits n)
unfolding itoa
itoa_pos n = refl

pub itoa_neg : (n : ℕ) → (n + 1 == 2 ^ 31) ≡ false → itoa (negsuc n) ≡ b'-' ∷ digits (n + 1)
unfolding itoa
itoa_neg n usual = ap (λ b. b'-' ∷ itoa_loop b 10 (n + 1) []) usual

printed_zero : atoi (b'0' ∷ []) ≡ pos 0
unfolding atoi
printed_zero = refl

-- An `int` that `itoa` prints is read back by `atoi`, the least one left aside.
pub atoi-itoa :
    (n m : ℕ)
    → n < 2 ^ 31
    → m + 1 < 2 ^ 31
    → (atoi (itoa (pos n)) ≡ pos n) × (atoi (itoa (negsuc m)) ≡ negsuc m)
atoi-itoa n m h h' = (
  elim (Bool-cases (n == 0)) [
    | inl nothing ↦
        let same : n ≡ 0 = (==_iff n 0).0 nothing in
        rw (itoa_pos n) (simp nothing (printed_zero ∙ ap pos (sym same)))
    | inr more ↦ rw (itoa_pos n) (
        simp more (
          atoi-digits (digits n) (itoa_loop-IsDigit 10 n [] tt)
            (some_digits n (digits n) (λ e. ground arith) (spelled n (omega arith)))
          ∙ ap signed32 (read_digits n (omega arith))
          ∙ signed32_pos n h))
  ],
  let usual : (m + 1 == 2 ^ 31) ≡ false = ground arith in
      rw (itoa_neg m usual) (
        atoi_minus (digits (m + 1))
        ∙ ap (λ w. signed32 (u32 (2 ^ 32 - w))) (read_digits (m + 1) (omega arith))
        ∙ signed32_neg m h'),
)
