-- ===== src/Format/Fuel.antt =====
-- The loops over a format get the rounds that they need.
use hatcher.Base.{ℕ, ◌≤◌, ◌≡◌, List, length}
use hatcher.Format.{Printed, out_of_rounds, undefined, written, Arg}

abbrev Rounds : Type 0
Rounds = List ℕ → List Arg → List ℕ → Printed

-- The loop has ended before its rounds were used up.
abbrev pub HasEnded : Printed → Type 0
HasEnded out_of_rounds = ⊥
HasEnded undefined = Unit
HasEnded (written buf) = Unit

-- Two numbers of rounds have the same outcome, and the loop has ended.
abbrev pub Same : Printed → Printed → Type 0
Same o o' = (o ≡ o') × HasEnded o

-- Two continuations that agree on formats of at most `n` characters.
abbrev Agree : ℕ → Rounds → Rounds → Type 0
Agree n rec rec' =
    (f : List ℕ) (args : List Arg) (buf : List ℕ)
    → length f ≤ n
    → Same (rec f args buf) (rec' f args buf)
