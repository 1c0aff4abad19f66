-- ===== src/Text/Compare.antt =====
-- `strcmp` and `memcmp`.
use hatcher.Base.{
  if◌then◌else◌, ℕ, zero, suc, ◌+◌, ◌^◌, ◌≤◌, ◌<◌, ◌≡◌, ◌≢◌, ◌↔◌, refl, sym, ap, ◌∙◌, true, false,
  List, [], ◌∷◌, inl, inr, arith, ◌==◌, Bool-cases, ==_iff, All,
}
use hatcher.Base.Int.{is_zero, pos, ◌-ℤ◌}
use hatcher.Text.{char_diff, strcmp, memcmp}

abbrev pub IsChar : ℕ → Type 0
IsChar c = (0 < c) × (c < 2 ^ 8)

pub diff_zero : (c d : ℕ) → c < 2 ^ 8 → d < 2 ^ 8 → char_diff c d ≡ pos 0 → c ≡ d
unfolding ◌-ℤ◌
diff_zero c d hc hd e = let test : is_zero (char_diff c d) ≡ true = ap is_zero e in ground arith

pub diff_self : (c : ℕ) → char_diff c c ≡ pos 0
unfolding ◌-ℤ◌
diff_self c = ground arith

-- `strcmp` of two C strings returns 0 exactly when they are the same.
pub strcmp-eq : (s t : List ℕ) → All IsChar s → All IsChar t → (strcmp s t ≡ pos 0) ↔ (s ≡ t)
unfolding strcmp
strcmp-eq [] [] hs ht = (λ e. refl, λ e. diff_self 0)
strcmp-eq [] (d ∷ t) hs ht =
    (λ e. absurd (omega (arith, diff_zero 0 d (omega arith) ht.0.1 e, ht.0.0)), λ e. cc)
strcmp-eq (c ∷ s) [] hs ht =
    (λ e. absurd (omega (arith, diff_zero c 0 hs.0.1 (omega arith) e, hs.0.0)), λ e. cc)
strcmp-eq (c ∷ s) (d ∷ t) hs ht = elim (Bool-cases (c == d)) [
  | inl same ↦
      let equal : c ≡ d = (==_iff c d).0 same in
      let rest = strcmp-eq s t hs.1 ht.1 in
      simp same (λ e. let tail = rest.0 e in cc, λ e. rest.1 (let tail : s ≡ t = cc in tail))
  | inr other ↦
      let differ : c ≢ d = λ e. ground arith in
      simp other (
        λ e. absurd (differ (diff_zero c d hs.0.1 ht.0.1 e)),
        λ e. absurd (differ (let head : c ≡ d = cc in head)),
      )
]

memcmp_cases :
    (p q n i : ℕ) (f : ℕ → ℕ)
    → i ≤ n
    → ((k : ℕ) → k < i → f (p + k) ≡ f (q + k))
    → (i ≡ n → memcmp p q n f ≡ pos 0)
      × (i < n → f (p + i) ≢ f (q + i) → memcmp p q n f ≡ char_diff (f (p + i + 1)) (f (q + i + 1)))
unfolding memcmp
memcmp_cases p q zero zero f le same = (λ e. refl, λ lt. absurd (omega arith))
memcmp_cases p q zero (suc i) f le same = absurd (omega arith)
memcmp_cases p q (suc n) zero f le same = (
  λ e. absurd (omega arith),
  λ lt differ.
      let differ' : f p ≢ f q = λ e. differ (at_zero p ∙ e ∙ sym (at_zero q)) in
      let test : (f p == f q) ≡ false = ground arith in simp (test, zero_add p, zero_add q),
)
  where
    zero_add : (a : ℕ) → a + zero ≡ a
    zero_add a = omega arith

    at_zero : (a : ℕ) → f (a + zero) ≡ f a
    at_zero a = ap f (zero_add a)
memcmp_cases p q (suc n) (suc i) f le same =
    let head : (f p == f q) ≡ true =
      (==_iff _ _).1 (ap f (omega arith) ∙ same 0 (omega arith) ∙ ap f (omega arith)) in
    let moved : (a k : ℕ) → a + suc k ≡ a + 1 + k = λ a k. omega arith in
    let rest =
      memcmp_cases (p + 1) (q + 1) n i f (omega arith)
        (λ k lt. rw (← moved p k, ← moved q k) (same (suc k) (omega arith))) in
    simp (head, moved) (λ e. rest.0 (omega arith), λ lt. rest.1 (omega arith))

-- `memcmp` of equal ranges returns 0; otherwise it returns the difference, as `char`s, of the two
-- bytes that come behind the first ones that differ.
pub memcmp_lem :
    (p q n i : ℕ) (f : ℕ → ℕ)
    → i ≤ n
    → ((k : ℕ) → k < i → f (p + k) ≡ f (q + k))
    → (i < n → f (p + i) ≢ f (q + i))
    → memcmp p q n f ≡ (if i == n then pos 0 else char_diff (f (p + i + 1)) (f (q + i + 1)))
memcmp_lem p q n i f le same differ = elim (Bool-cases (i == n)) [
  | inl all ↦ simp all ((memcmp_cases p q n i f le same).0 ((==_iff i n).0 all))
  | inr part ↦
      let less : i < n = ground arith in
      simp part ((memcmp_cases p q n i f le same).1 less (differ less))
]
