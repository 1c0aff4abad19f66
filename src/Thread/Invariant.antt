-- ===== src/Thread/Invariant.antt =====
-- What holds of the scheduler between two steps: thread ids are array indices, and at most the
-- current thread is marked as running.
use hatcher.Base.{
  ℕ, zero, suc, ◌≤◌, ◌<◌, ◌≡◌, ◌≢◌, refl, sym, ap, ◌∙◌, Bool, Option, none, some, List, [], ◌∷◌,
  map, ◌⊎◌, inl, inr, arith, ◌==◌, Bool-cases, length, get_elem?, modify, if◌then◌else◌,
  length-modify, get_elem?-modify, map_some,
}
use mathlib.Core.Path.{subst}
use hatcher.Thread.{
  Thread, Scheduler, running, update_first, wake, wake_all, switch_to, put_back, with_state,
}

pub record IsSched (s : Scheduler) : Type 0 where
  pub few : length s.threads ≤ 32
  pub on : s.current < length s.threads
  pub tids : (i : ℕ) (t : Thread) → get_elem? s.threads i ≡ some t → t.tid ≡ i
  pub single :
      (i : ℕ) (t : Thread) → get_elem? s.threads i ≡ some t → t.state ≡ running → i ≡ s.current

-- A change of one thread that starts nothing.
abbrev Calm : Thread → Thread → Type 0
Calm t u = (u.tid ≡ t.tid) × (u.state ≡ running → t.state ≡ running)

abbrev Quiet : List Thread → List Thread → Type 0
Quiet [] [] = Unit
Quiet [] (u ∷ us) = ⊥
Quiet (t ∷ ts) [] = ⊥
Quiet (t ∷ ts) (u ∷ us) = Calm t u × Quiet ts us

pub Quiet-refl : (ts : List Thread) → Quiet ts ts
Quiet-refl [] = tt
Quiet-refl (t ∷ ts) = ((refl, λ r. r), Quiet-refl ts)

length-Quiet : (ts us : List Thread) → Quiet ts us → length us ≡ length ts
length-Quiet [] [] q = refl
length-Quiet [] (u ∷ us) q = absurd q
length-Quiet (t ∷ ts) [] q = absurd q
length-Quiet (t ∷ ts) (u ∷ us) q = ap suc (length-Quiet ts us q.1)

Quiet-get_elem? :
    (ts us : List Thread) (i : ℕ) (u : Thread)
    → Quiet ts us
    → get_elem? us i ≡ some u
    → (t : Thread) × (get_elem? ts i ≡ some t) × Calm t u
Quiet-get_elem? [] [] i u q e = cc
Quiet-get_elem? [] (v ∷ us) i u q e = absurd q
Quiet-get_elem? (t ∷ ts) [] i u q e = absurd q
Quiet-get_elem? (t ∷ ts) (v ∷ us) zero u q e =
    let same : v ≡ u = cc in (t, refl, subst (Calm t) same q.0)
Quiet-get_elem? (t ∷ ts) (v ∷ us) (suc i) u q e = Quiet-get_elem? ts us i u q.1 e

pub Quiet-IsSched :
    {s : Scheduler} (us : List Thread)
    → Quiet s.threads us
    → IsSched s
    → IsSched (record s { threads = us })
Quiet-IsSched {s} us q v = record {
  few = omega (arith, length-Quiet s.threads us q, v.few);
  on = omega (arith, length-Quiet s.threads us q, v.on);
  tids =
      λ i u e. let (t, at, calm) = Quiet-get_elem? s.threads us i u q e in calm.0 ∙ v.tids i t at;
  single = λ i u e r.
      let (t, at, calm) = Quiet-get_elem? s.threads us i u q e in v.single i t at (calm.1 r);
}

pub update_first-Quiet :
    (test : Thread → Bool) (f : Thread → Thread) (ts : List Thread)
    → ((t : Thread) → Calm t (f t))
    → Quiet ts (update_first test f ts)
unfolding update_first
update_first-Quiet test f [] calm = tt
update_first-Quiet test f (t ∷ ts) calm = elim (Bool-cases (test t)) [
  | inl hit ↦ simp hit (calm t, Quiet-refl ts)
  | inr miss ↦ simp miss ((refl, λ r. r), update_first-Quiet test f ts calm)
]

pub modify-Quiet :
    (i : ℕ) (f : Thread → Thread) (ts : List Thread)
    → ((t : Thread) → Calm t (f t))
    → Quiet ts (modify i f ts)
unfolding modify
modify-Quiet i f [] calm = tt
modify-Quiet zero f (t ∷ ts) calm = (calm t, Quiet-refl ts)
modify-Quiet (suc i) f (t ∷ ts) calm = ((refl, λ r. r), modify-Quiet i f ts calm)

pub map-Quiet :
    (f : Thread → Thread) (ts : List Thread) → ((t : Thread) → Calm t (f t)) → Quiet ts (map f ts)
map-Quiet f [] calm = tt
map-Quiet f (t ∷ ts) calm = (calm t, map-Quiet f ts calm)

wake-Calm : (ticks : ℕ) (t : Thread) → Calm t (wake ticks t)
unfolding wake
wake-Calm ticks t = (ground arith, λ r. ground arith)

pub wake_all-IsSched : {s : Scheduler} → IsSched s → IsSched (wake_all s)
unfolding wake_all
wake_all-IsSched {s} v =
    Quiet-IsSched (map (wake s.timer_ticks) s.threads)
      (map-Quiet (wake s.timer_ticks) s.threads (wake-Calm s.timer_ticks)) v

-- The thread at `i` after a switch to `idx`.
pub switched :
    (s : Scheduler) (idx i : ℕ)
    → get_elem? (switch_to idx s).threads i ≡ (
        if idx == i
        then map_some (with_state running) (
            if s.current == i
            then map_some put_back (map_some (with_state running) (get_elem? s.threads i))
            else map_some (with_state running) (get_elem? s.threads i))
        else (if s.current == i
            then map_some put_back (get_elem? s.threads i)
            else get_elem? s.threads i))
unfolding switch_to
switched s idx i = elim (Bool-cases (idx == i)) [
  | inl here ↦ simp (get_elem?-modify, here)
  | inr there ↦ simp (get_elem?-modify, there)
]

pub length-switch_to :
    (s : Scheduler) (idx : ℕ) → length (switch_to idx s).threads ≡ length s.threads
unfolding switch_to
length-switch_to s idx = simp length-modify

pub current-switch_to : (s : Scheduler) (idx : ℕ) → (switch_to idx s).current ≡ idx
unfolding switch_to
current-switch_to s idx = refl

-- What a switch leaves at index `i`.
Switched : Scheduler → ℕ → ℕ → Thread → Type 0
Switched s idx i u =
    (t : Thread) × (get_elem? s.threads i ≡ some t)
    × (u.tid ≡ t.tid)
    × ((i ≡ idx) ⊎ ((u.state ≢ running) ⊎ ((i ≢ s.current) × (u ≡ t))))

switch_to-Switched :
    (s : Scheduler) (idx i : ℕ) (o : Option Thread) (u : Thread)
    → get_elem? s.threads i ≡ o
    → get_elem? (switch_to idx s).threads i ≡ some u
    → Switched s idx i u
unfolding Switched
switch_to-Switched s idx i none u at e = ground (arith, switched s idx i)
switch_to-Switched s idx i (some t) u at e =
    (t, at, ground (arith, switched s idx i), ground (arith, switched s idx i))

pub switch_to-IsSched :
    {s : Scheduler} (idx : ℕ) → idx < length s.threads → IsSched s → IsSched (switch_to idx s)
unfolding Switched
switch_to-IsSched {s} idx lt v = record {
  few = rw length-switch_to v.few;
  on = rw (length-switch_to, current-switch_to) lt;
  tids = λ i u e.
      let (t, at, tid, _) = switch_to-Switched s idx i (get_elem? s.threads i) u refl e in
      tid ∙ v.tids i t at;
  single = λ i u e r.
      let (t, at, tid, cases) = switch_to-Switched s idx i (get_elem? s.threads i) u refl e in
      rw current-switch_to (elim cases [
        | inl here ↦ here
        | inr (inl idle) ↦ absurd (idle r)
        | inr (inr (ne, same)) ↦ absurd (ne (v.single i t at (ap (λ x. x.state) (sym same) ∙ r)))
      ]);
}
