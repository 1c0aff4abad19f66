-- ===== src/Format/Digits.antt =====
-- The decimal digits of `kprintf` are those of `itoa`.
use hatcher.Base.{
  ℕ, zero, suc, ◌+◌, ◌-◌, ◌/◌, ◌%◌, ◌^◌, ◌≤◌, ◌<◌, ◌≡◌, ◌≢◌, refl, sym, ap, ◌∙◌, true, false,
  Option, none, some, List, [], ◌∷◌, ◌++◌, inl, inr, arith, ◌==◌, ltb, if◌then◌else◌, Bool-cases,
  ==_iff, length, u32, if-true, if-false,
}
use hatcher.Base.Int.{signed32}
use hatcher.Text.{itoa, itoa_loop}
use hatcher.Text.Number.{itoa_pos, itoa_neg, power_of_ten}
use hatcher.Format.{
  Arg, number, digit_char, digits_up, reverse_onto, put_number, is_neg, magnitude, minus_sign,
  convert,
}

digits_up-itoa_loop :
    (j k letter v : ℕ) (s : List ℕ)
    → 0 < v
    → v < power_of_ten j
    → j ≤ k
    → reverse_onto (digits_up 10 letter k v) s ≡ itoa_loop false j v s
digits_up-itoa_loop zero k letter v s h small le = absurd (omega arith)
digits_up-itoa_loop (suc j) zero letter v s h small le = absurd (omega arith)
digits_up-itoa_loop (suc j) (suc k) letter v s h small le =
    let some_left : (v == 0) ≡ false = ground arith in
    let decimal : digit_char letter (v % 10) ≡ b'0' + v % 10 = ground arith in
    elim (Bool-cases (v / 10 == 0)) [
      | inl last ↦
          let nothing : v / 10 ≡ 0 = (==_iff _ _).0 last in
          rw (last_digit letter k v s last, decimal, itoa_step j v s some_left, nothing)
            (sym (itoa_done j ((b'0' + v % 10) ∷ s)))
      | inr more ↦
          rw (next_digit letter k v s more, decimal, itoa_step j v s some_left)
            (digits_up-itoa_loop j k letter (v / 10) ((b'0' + v % 10) ∷ s) (ground arith)
              (omega arith) (omega arith))
    ]
  where
    last_digit :
        (letter k v : ℕ) (s : List ℕ)
        → (v / 10 == 0) ≡ true
        → reverse_onto (digits_up 10 letter (suc k) v) s ≡ digit_char letter (v % 10) ∷ s
    last_digit letter k v s e =
        unfold digits_up reverse_onto in
        ap (λ r. reverse_onto r (digit_char letter (v % 10) ∷ s))
          (if-true [] (digits_up 10 letter k (v / 10)) e)

    next_digit :
        (letter k v : ℕ) (s : List ℕ)
        → (v / 10 == 0) ≡ false
        → reverse_onto (digits_up 10 letter (suc k) v) s
          ≡ reverse_onto (digits_up 10 letter k (v / 10)) (digit_char letter (v % 10) ∷ s)
    next_digit letter k v s e =
        unfold digits_up reverse_onto in
        ap (λ r. reverse_onto r (digit_char letter (v % 10) ∷ s))
          (if-false [] (digits_up 10 letter k (v / 10)) e)

    itoa_step :
        (j v : ℕ) (s : List ℕ)
        → (v == 0) ≡ false
        → itoa_loop false (suc j) v s ≡ itoa_loop false j (v / 10) ((b'0' + v % 10) ∷ s)
    itoa_step j v s e =
        unfold itoa_loop in if-false s (itoa_loop false j (v / 10) ((b'0' + v % 10) ∷ s)) e

    itoa_done : (j : ℕ) (s : List ℕ) → itoa_loop false j 0 s ≡ s
    itoa_done zero s = unfold itoa_loop in refl
    itoa_done (suc j) s = unfold itoa_loop in refl

reverse_onto-snoc :
    (r : List ℕ) (c : ℕ) (s : List ℕ) → reverse_onto (r ++ (c ∷ [])) s ≡ c ∷ reverse_onto r s
unfolding reverse_onto
reverse_onto-snoc [] c s = refl
reverse_onto-snoc (d ∷ r) c s = reverse_onto-snoc r c (d ∷ s)

append_nil : (r : List ℕ) → r ++ [] ≡ r
append_nil [] = refl
append_nil (c ∷ r) = ap (λ t. c ∷ t) (append_nil r)

put_number_lem : (r : List ℕ) → put_number 0 false r ≡ some (reverse_onto r [])
unfolding put_number
put_number_lem r =
    let nothing : 0 - length r ≡ 0 = omega arith in
    rw nothing (ap (λ t. some (reverse_onto t [])) (append_nil r))

abbrev decimal : ℕ → List ℕ
decimal w = digits_up 10 b'a' 32 (magnitude w) ++ minus_sign (is_neg w)

decimal-itoa : (w : ℕ) → w < 2 ^ 32 → w ≢ 2 ^ 31 → reverse_onto (decimal w) [] ≡ itoa (signed32 w)
decimal-itoa w small usual = elim (Bool-cases (is_neg w)) [
  | inl below ↦
      let m : ℕ = 2 ^ 32 - w - 1 in
      let high : ltb w (2 ^ 31) ≡ false = ground arith in
      let word : u32 (2 ^ 32 - w) ≡ m + 1 = ground arith in
      let not_least : (m + 1 == 2 ^ 31) ≡ false = ground arith in
      simp (below, high, word)
        (reverse_onto-snoc (digits_up 10 b'a' 32 (m + 1)) b'-' []
          ∙ ap (λ t. b'-' ∷ t)
              (digits_up-itoa_loop 10 32 b'a' (m + 1) [] (omega arith) (ground arith) (omega arith))
          ∙ sym (itoa_neg m not_least))
  | inr positive ↦
      let low : ltb w (2 ^ 31) ≡ true = ground arith in
      simp (positive, low)
        (ap (λ r. reverse_onto r []) (append_nil (digits_up 10 b'a' 32 w))
          ∙ unsigned w (ground arith)
          ∙ sym (itoa_pos w))
]
  where
    unsigned :
        (w : ℕ)
        → w < 2 ^ 31
        → reverse_onto (digits_up 10 b'a' 32 w) []
          ≡ (if w == 0 then b'0' ∷ [] else itoa_loop false 10 w [])
    unsigned w small = elim (Bool-cases (w == 0)) [
      | inl nothing ↦
          let same : w ≡ 0 = (==_iff w 0).0 nothing in
          rw same (unfold digits_up reverse_onto in refl)
      | inr more ↦
          simp more (digits_up-itoa_loop 10 32 b'a' w [] (ground arith) (omega arith) (omega arith))
    ]

-- `%d` writes what `itoa` writes, for every `int` but the least.
pub convert-itoa :
    (w : ℕ) (args : List Arg)
    → w < 2 ^ 32
    → w ≢ 2 ^ 31
    → convert 0 false 0 b'd' (number w ∷ args) ≡ some (itoa (signed32 w), args)
convert-itoa w args small usual =
    let word : u32 w ≡ w = omega arith in
    rw (as_decimal w args, word, put_number_lem (decimal w), decimal-itoa w small usual) refl
  where
    as_decimal :
        (w : ℕ) (args : List Arg)
        → convert 0 false 0 b'd' (number w ∷ args)
          ≡ elim (put_number 0 false (decimal (u32 w))) as (λ x. Option (List ℕ × List Arg)) [
            | none ↦ none
            | some s ↦ some (s, args)
          ]
    as_decimal w args = unfold convert in refl
