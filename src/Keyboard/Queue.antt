-- ===== src/Keyboard/Queue.antt =====
-- The ring buffer of the keyboard is a queue of at most 127 characters.
use mathlib.Core.Path.{subst}
use hatcher.Base.{
  ℕ, zero, suc, ◌+◌, ◌-◌, ◌%◌, ◌≤◌, ◌<◌, ◌≡◌, ◌≢◌, refl, ap, ◌∙◌, true, false, none, some, List, [],
  ◌∷◌, ◌++◌, ◌⊎◌, inl, inr, arith, ◌==◌, ltb, if◌then◌else◌, Bool-cases, length, get_or, set, u32,
  length-set, get_or-set_self, get_or-set_ne,
}
use hatcher.Keyboard.{Keyboard, kb_buf_size, keyboard_buffer_push, keyboard_buffer_pop}

-- `n` characters of the buffer, from index `i` on, around its end.
unfoldable pub read_ring : ℕ → ℕ → List ℕ → List ℕ
read_ring zero i b = []
read_ring (suc n) i b = get_or b i 0 ∷ read_ring n ((i + 1) % 128) b

abbrev pub pending : Keyboard → ℕ
pending k = (k.kb_head + 128 - k.kb_tail) % 128

-- The characters that wait, the oldest one first.
abbrev pub queue : Keyboard → List ℕ
queue k = read_ring (pending k) k.kb_tail k.kb_buf

-- A queue of at most 127 characters drops what comes when it is full.
abbrev pub enqueue : ℕ → List ℕ → List ℕ
enqueue c q = if ltb (length q) 127 then q ++ (c ∷ []) else q

pub record IsRing (k : Keyboard) : Type 0 where
  pub size : length k.kb_buf ≡ 128
  pub head : k.kb_head < 128
  pub tail : k.kb_tail < 128

pub length-read_ring : (n i : ℕ) (b : List ℕ) → length (read_ring n i b) ≡ n
unfolding read_ring
length-read_ring zero i b = refl
length-read_ring (suc n) i b = ap suc (length-read_ring n ((i + 1) % 128) b)

pub length-queue : (k : Keyboard) → length (queue k) ≡ pending k
length-queue k = length-read_ring (pending k) k.kb_tail k.kb_buf

-- A write at an index that is not among those read.
read_ring-set :
    (n i j : ℕ) (b : List ℕ) (c : ℕ)
    → i < 128
    → j < 128
    → n ≤ (j + 128 - i) % 128
    → read_ring n i (set b j c) ≡ read_ring n i b
unfolding read_ring
read_ring-set zero i j b c small small' le = refl
read_ring-set (suc n) i j b c small small' le =
    let ne : j ≢ i = λ e. omega arith in
    let rest : n ≤ (j + 128 - (i + 1) % 128) % 128 = omega arith in
    rw (get_or-set_ne b j i c 0 ne)
      (ap (λ q. get_or b i 0 ∷ q) (read_ring-set n ((i + 1) % 128) j b c (omega arith) small' rest))

read_ring-snoc :
    (n i j : ℕ) (b : List ℕ)
    → i < 128
    → j ≡ (i + n) % 128
    → read_ring (suc n) i b ≡ read_ring n i b ++ (get_or b j 0 ∷ [])
unfolding read_ring
read_ring-snoc zero i j b small e = let same : j ≡ i = omega arith in rw same refl
read_ring-snoc (suc n) i j b small e =
    ap (λ q. get_or b i 0 ∷ q) (read_ring-snoc n ((i + 1) % 128) j b (omega arith) (omega arith))

-- `keyboard_buffer_push` adds a character behind those that wait, unless there are 127 already: then
-- the character is dropped.
pub keyboard_buffer_push-queue :
    (k : Keyboard) (c : ℕ)
    → IsRing k
    → IsRing (keyboard_buffer_push c k) × (queue (keyboard_buffer_push c k) ≡ enqueue c (queue k))
unfolding keyboard_buffer_push
keyboard_buffer_push-queue k c v =
    elim (Bool-cases (u32 (k.kb_head + 1) % kb_buf_size == k.kb_tail)) [
      | inl full ↦
          let no_room : ltb (length (queue k)) 127 ≡ false =
            ground (arith, length-queue k, v.head, v.tail) in
          simp (full, no_room) (v, refl)
      | inr room ↦
          let some_room : ltb (length (queue k)) 127 ≡ true =
            ground (arith, length-queue k, v.head, v.tail) in
          let next : u32 (k.kb_head + 1) % 128 ≡ (k.kb_head + 1) % 128 = omega (arith, v.head) in
          let room' : ((k.kb_head + 1) % 128 == k.kb_tail) ≡ false =
            subst (λ n. (n == k.kb_tail) ≡ false) next room in
          let one_more : ((k.kb_head + 1) % 128 + 128 - k.kb_tail) % 128 ≡ suc (pending k) =
            ground (arith, v.head, v.tail) in
          simp (next, room', some_room, one_more)
            (
              record {
                size = length-set k.kb_buf k.kb_head c ∙ v.size;
                head = omega arith;
                tail = v.tail;
              },
              read_ring-snoc (pending k) k.kb_tail k.kb_head (set k.kb_buf k.kb_head c) v.tail
                    (omega (arith, v.head, v.tail))
                  ∙ rw
                      (
                        get_or-set_self k.kb_buf k.kb_head c 0 (omega (arith, v.head, v.size)),
                        read_ring-set (pending k) k.kb_tail k.kb_head k.kb_buf c v.tail v.head
                            (omega arith),
                      )
                      refl,
            )
    ]

-- `keyboard_buffer_pop` takes the oldest character, if there is one; it returns 0 exactly when none
-- waits.
pub keyboard_buffer_pop-queue :
    (k : Keyboard)
    → IsRing k
    → IsRing (keyboard_buffer_pop k).1
      × ((((keyboard_buffer_pop k).0 ≡ none) × (queue k ≡ []) × ((keyboard_buffer_pop k).1 ≡ k))
          ⊎ ((c : ℕ) × ((keyboard_buffer_pop k).0 ≡ some c)
              × (queue k ≡ c ∷ queue (keyboard_buffer_pop k).1)))
unfolding keyboard_buffer_pop
keyboard_buffer_pop-queue k v = elim (Bool-cases (k.kb_head == k.kb_tail)) [
  | inl empty ↦
      let none_left : pending k ≡ 0 = ground (arith, v.head, v.tail) in
      simp (empty, none_left) (v, inl (refl, unfold read_ring in refl, refl))
  | inr more ↦
      let next : u32 (k.kb_tail + 1) % 128 ≡ (k.kb_tail + 1) % 128 = omega (arith, v.tail) in
      let one_less : pending k ≡ suc ((k.kb_head + 128 - (k.kb_tail + 1) % 128) % 128) =
        ground (arith, v.head, v.tail) in
      simp (more, next, one_less)
        (
          record { size = v.size; head = v.head; tail = omega arith },
          inr (get_or k.kb_buf k.kb_tail 0, refl, unfold read_ring in refl),
        )
]
