-- ===== src/Effect.antt =====
-- Commands over a mutable state `S`: the kernel's functions that read and write shared memory.
-- `fault` is an access that the C program has no meaning for (a NULL pointer, an address that holds
-- no such object); `out_of_fuel` is a loop that was given too few rounds.
use mathlib.Core.Path.{◌≡◌, refl, subst}

pub data Run (S A : Type 0) : Type 0 where
  ok : A → S → Run S A
  fault : Run S A
  out_of_fuel : Run S A

abbrev pub Cmd : Type 0 → Type 0 → Type 0
Cmd S A = S → Run S A

module _ {S : Type 0} where
  abbrev pub pure : {A : Type 0} → A → Cmd S A
  pure a s = ok a s

  abbrev pub and_then : {A B : Type 0} → Run S A → (A → Cmd S B) → Run S B
  and_then (ok a s) k = k a s
  and_then fault k = fault
  and_then out_of_fuel k = out_of_fuel

  infixl 5 ◌>>=◌ ◌>>◌
  abbrev pub ◌>>=◌ : {A B : Type 0} → Cmd S A → (A → Cmd S B) → Cmd S B
  m >>= k = λ s. and_then (m s) k

  abbrev pub ◌>>◌ : {B : Type 0} → Cmd S (Unit {0}) → Cmd S B → Cmd S B
  m >> n = m >>= λ _. n

  pub and_then_assoc :
      {A B C : Type 0} (r : Run S A) (f : A → Cmd S B) (g : B → Cmd S C)
      → and_then (and_then r f) g ≡ and_then r (λ a s. and_then (f a s) g)
  and_then_assoc (ok a s) f g = refl
  and_then_assoc fault f g = refl
  and_then_assoc out_of_fuel f g = refl

  -- Total correctness of a run: it comes to an end without a fault, in a state that satisfies `P`.
  pub data Returns {A : Type 0} (P : A → S → Type 0) : Run S A → Type 0 where
    returns : {a : A} {s : S} → P a s → Returns P (ok a s)

  abbrev Post : {A : Type 0} → (A → S → Type 0) → Run S A → Type 0
  Post P (ok a s) = P a s
  Post P fault = ⊥
  Post P out_of_fuel = ⊥

  -- What holds of the end of a run, where the end is known.
  pub at_end :
      {A : Type 0} (P : A → S → Type 0) (a : A) (s : S) {r : Run S A}
      → Returns P r
      → r ≡ ok a s
      → P a s
  at_end P a s (returns {a = a'} {s = s'} p) e = subst (Post P) e p

  module _ {A : Type 0} {P : A → S → Type 0} where
    pub bind :
        {B : Type 0} {Q : B → S → Type 0} {r : Run S A} {k : A → Cmd S B}
        → Returns P r
        → ((a : A) (s : S) → P a s → Returns Q (k a s))
        → Returns Q (and_then r k)
    bind (returns p) next = next _ _ p

    pub mono :
        {Q : A → S → Type 0} {r : Run S A}
        → Returns P r
        → ((a : A) (s : S) → P a s → Q a s)
        → Returns Q r
    mono (returns p) weaken = returns (weaken _ _ p)
