-- ===== src/Fat/Names.antt =====
-- Names are compared without regard to case.
use hatcher.Base.{
  ℕ, ◌^◌, ◌<◌, ◌≡◌, ◌≢◌, ◌↔◌, refl, true, false, List, [], ◌∷◌, map, inl, inr, arith, ◌==◌,
  Bool-cases, ==_iff, All, if-true, if-false,
}
use hatcher.Base.Int.{pos}
use hatcher.Text.{char_diff}
use hatcher.Text.Compare.{IsChar, diff_zero, diff_self}
use hatcher.Fat.{toupper_ascii, strcasecmp_ascii}

-- `strcasecmp_ascii` returns 0 exactly when the texts agree in capitals.
pub strcasecmp_ascii-map :
    (a b : List ℕ)
    → All IsChar a
    → All IsChar b
    → (strcasecmp_ascii a b ≡ pos 0) ↔ (map toupper_ascii a ≡ map toupper_ascii b)
unfolding strcasecmp_ascii
strcasecmp_ascii-map [] [] ha hb = (λ e. refl, λ e. diff_self 0)
strcasecmp_ascii-map [] (d ∷ b) ha hb =
    (λ e. absurd (omega (arith, diff_zero 0 d (omega arith) hb.0.1 e, hb.0.0)), λ e. cc)
strcasecmp_ascii-map (c ∷ a) [] ha hb =
    (λ e. absurd (omega (arith, diff_zero c 0 ha.0.1 (omega arith) e, ha.0.0)), λ e. cc)
strcasecmp_ascii-map (c ∷ a) (d ∷ b) ha hb =
    elim (Bool-cases (toupper_ascii c == toupper_ascii d)) [
      | inl same ↦
          let equal : toupper_ascii c ≡ toupper_ascii d = (==_iff _ _).0 same in
          let rest = strcasecmp_ascii-map a b ha.1 hb.1 in
          rw (step_same c d a b same) (
            λ e. let tail = rest.0 e in cc,
            λ e. rest.1 (let tail : map toupper_ascii a ≡ map toupper_ascii b = cc in tail),
          )
      | inr other ↦
          let differ : toupper_ascii c ≢ toupper_ascii d = λ e. ground arith in
          rw (step_other c d a b other) (
            λ e. absurd (
                differ (
                  diff_zero (toupper_ascii c) (toupper_ascii d) (small c ha.0.1) (small d hb.0.1)
                    e)),
            λ e. absurd (differ (let head : toupper_ascii c ≡ toupper_ascii d = cc in head)),
          )
    ]
  where
    small : (c : ℕ) → c < 2 ^ 8 → toupper_ascii c < 2 ^ 8
    small c h = ground arith

    step_same :
        (c d : ℕ) (a b : List ℕ)
        → (toupper_ascii c == toupper_ascii d) ≡ true
        → strcasecmp_ascii (c ∷ a) (d ∷ b) ≡ strcasecmp_ascii a b
    step_same c d a b h = if-true _ _ h

    step_other :
        (c d : ℕ) (a b : List ℕ)
        → (toupper_ascii c == toupper_ascii d) ≡ false
        → strcasecmp_ascii (c ∷ a) (d ∷ b) ≡ char_diff (toupper_ascii c) (toupper_ascii d)
    step_other c d a b h = if-false _ _ h
