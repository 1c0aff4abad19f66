-- ===== src/Thread/Lookup.antt =====
-- The functions that find a thread by its id, where ids are array indices.
use hatcher.Base.{
  ℕ, zero, suc, ◌+◌, ◌<◌, ◌≡◌, ◌≢◌, refl, ap, Bool, true, false, not, some, List, [], ◌∷◌, ◌&&◌,
  inl, inr, arith, ◌==◌, Bool-cases, get_elem?, modify, if◌then◌else◌, get_elem?-modify_self,
  get_elem?-modify_ne,
}
use hatcher.Thread.{
  Thread, Scheduler, ready, blocked, terminated, is_blocked, is_terminated, update_first,
  find_first, with_state, thread_stop, thread_block, thread_unblock, thread_get, thread_get_state,
  state_of,
}
use hatcher.Thread.Invariant.{IsSched}

-- The ids of the threads count up from `base`.
abbrev Counted : ℕ → List Thread → Type 0
Counted base [] = Unit
Counted base (t ∷ ts) = (t.tid ≡ base) × Counted (suc base) ts

Counted-of :
    (base : ℕ) (ts : List Thread)
    → ((i : ℕ) (t : Thread) → get_elem? ts i ≡ some t → t.tid ≡ base + i)
    → Counted base ts
Counted-of base [] h = tt
Counted-of base (t ∷ ts) h =
    (omega (arith, h 0 t refl), Counted-of (suc base) ts (λ i u e. omega (arith, h (suc i) u e)))

IsSched-Counted : {s : Scheduler} → IsSched s → Counted 0 s.threads
IsSched-Counted {s} v = Counted-of 0 s.threads (λ i t e. omega (arith, v.tids i t e))

find_first-get_elem? :
    (base pid i : ℕ) (ts : List Thread)
    → Counted base ts
    → pid ≡ base + i
    → find_first (λ t. t.tid == pid) ts ≡ get_elem? ts i
unfolding find_first
find_first-get_elem? base pid i [] c e = refl
find_first-get_elem? base pid zero (t ∷ ts) c e =
    let here : (t.tid == pid) ≡ true = ground arith in simp here
find_first-get_elem? base pid (suc i) (t ∷ ts) c e =
    let past : (t.tid == pid) ≡ false = ground arith in
    simp past (find_first-get_elem? (suc base) pid i ts c.1 (omega arith))

none_left :
    (base pid : ℕ) (q : Thread → Bool) (f : Thread → Thread) (ts : List Thread)
    → Counted base ts
    → pid < base
    → update_first (λ t. t.tid == pid && q t) f ts ≡ ts
unfolding update_first
none_left base pid q f [] c lt = refl
none_left base pid q f (t ∷ ts) c lt =
    let past : (t.tid == pid) ≡ false = ground arith in
    simp past (ap (λ us. t ∷ us) (none_left (suc base) pid q f ts c.1 (omega arith)))

-- The loops change the thread with index `pid`, if it passes the test, and no other.
update_first-modify :
    (base pid i : ℕ) (q : Thread → Bool) (f : Thread → Thread) (ts : List Thread)
    → Counted base ts
    → pid ≡ base + i
    → update_first (λ t. t.tid == pid && q t) f ts ≡ modify i (λ t. if q t then f t else t) ts
unfolding update_first modify
update_first-modify base pid zero q f [] c e = refl
update_first-modify base pid (suc i) q f [] c e = refl
update_first-modify base pid zero q f (t ∷ ts) c e =
    let here : (t.tid == pid) ≡ true = ground arith in
    elim (Bool-cases (q t)) [
      | inl hit ↦ simp (here, hit)
      | inr miss ↦
          simp (here, miss) (ap (λ us. t ∷ us) (none_left (suc base) pid q f ts c.1 (omega arith)))
    ]
update_first-modify base pid (suc i) q f (t ∷ ts) c e =
    let past : (t.tid == pid) ≡ false = ground arith in
    simp past (ap (λ us. t ∷ us) (update_first-modify (suc base) pid i q f ts c.1 (omega arith)))

-- `thread_get` and `thread_get_state` look the id up in the array; an id that no thread has gives
-- NULL and -1.
pub thread_get_lem :
    {s : Scheduler} (pid : ℕ)
    → IsSched s
    → (thread_get pid s ≡ get_elem? s.threads pid)
      × (thread_get_state pid s ≡ state_of (get_elem? s.threads pid))
unfolding thread_get thread_get_state
thread_get_lem {s} pid v =
    let found = find_first-get_elem? 0 pid pid s.threads (IsSched-Counted v) (omega arith) in
    (found, ap state_of found)

terminated_after :
    (t : Thread)
    → (if not (is_terminated t.state) then with_state terminated t else t) ≡ with_state terminated t
terminated_after t = ground arith

blocked_after :
    (t : Thread)
    → (if not (is_blocked t.state) then with_state blocked t else t) ≡ with_state blocked t
blocked_after t = ground arith

-- `thread_stop`, `thread_block` and `thread_unblock` of an id set the state of the thread with that
-- id, `thread_unblock` only if it was blocked, and leave every other thread as it is.
pub thread_stop_block_unblock :
    {s : Scheduler} (pid j : ℕ) {t : Thread}
    → IsSched s
    → get_elem? s.threads pid ≡ some t
    → pid ≢ j
    → (get_elem? (thread_stop pid s).threads pid ≡ some (with_state terminated t))
      × (get_elem? (thread_block pid s).threads pid ≡ some (with_state blocked t))
      × (get_elem? (thread_unblock pid s).threads pid
          ≡ some (if is_blocked t.state then with_state ready t else t))
      × (get_elem? (thread_stop pid s).threads j ≡ get_elem? s.threads j)
      × (get_elem? (thread_block pid s).threads j ≡ get_elem? s.threads j)
      × (get_elem? (thread_unblock pid s).threads j ≡ get_elem? s.threads j)
unfolding thread_stop thread_block thread_unblock
thread_stop_block_unblock {s} pid j {t} v at ne = (
  rw (change (λ u. not (is_terminated u.state)) (with_state terminated), ← terminated_after t)
      (get_elem?-modify_self pid _ s.threads at),
  rw (change (λ u. not (is_blocked u.state)) (with_state blocked), ← blocked_after t)
      (get_elem?-modify_self pid _ s.threads at),
  rw (change (λ u. is_blocked u.state) (with_state ready))
      (get_elem?-modify_self pid _ s.threads at),
  rw (change (λ u. not (is_terminated u.state)) (with_state terminated))
      (get_elem?-modify_ne pid j _ s.threads ne),
  rw (change (λ u. not (is_blocked u.state)) (with_state blocked))
      (get_elem?-modify_ne pid j _ s.threads ne),
  rw (change (λ u. is_blocked u.state) (with_state ready))
      (get_elem?-modify_ne pid j _ s.threads ne),
)
  where
    change :
        (q : Thread → Bool) (f : Thread → Thread)
        → update_first (λ u. u.tid == pid && q u) f s.threads
          ≡ modify pid (λ u. if q u then f u else u) s.threads
    change q f = update_first-modify 0 pid pid q f s.threads (IsSched-Counted v) (omega arith)
