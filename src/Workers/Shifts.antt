-- ===== src/Workers/Shifts.antt =====
-- What holds of the loops of Praktikum 3/producer.c and Praktikum 3/consumer.c in every order of
-- the threads: how many rounds there are, that they end, and that they never wait in a circle.
use mathlib.Core.Logic.{◌⊎◌}
use native.Mathlib.Decide.{dec_lt}
use ws2425_bs_praktikum.Base.{
  ℕ, suc, ◌+◌, ◌-◌, ◌*◌, ◌≤◌, ◌<◌, ◌≡◌, Bool, true, false, arith, ◌==◌, if◌then◌else◌, inl, inr,
  Bool-cases,
}
use ws2425_bs_praktikum.Base.Threads.{
  sum_of, sum_of-put_at, sum_of-const, sum_of-share, sum_of-some, sum_of-same,
}
use ws2425_bs_praktikum.Workers.Loop.{
  max_packets, Pc, at_lock, at_test, counted, in_round, at_exit, done, Worker, Move, lock, enter,
  leave, unlock, finish_round, unlock_last, Shop, opening, Step, moves, Reach, start, later,
}

-- The rounds that a thread has begun.
abbrev begun : Worker → ℕ
begun w = w.rounds + elim w.pc [ counted ↦ 1 | in_round ↦ 1 | _ ↦ 0 ]

abbrev number : Bool → ℕ
number b = if b then 1 else 0

-- 1 if the thread has the mutex.
abbrev pub inside : Worker → ℕ
inside w = elim w.pc [ at_test ↦ 1 | counted ↦ 1 | at_exit ↦ 1 | _ ↦ 0 ]

-- The moves that a thread has left, when it begins no more rounds.
abbrev left : Worker → ℕ
left w = elim w.pc [
  | at_lock ↦ 3
  | at_test ↦ 2
  | counted ↦ 5
  | in_round ↦ 4
  | at_exit ↦ 1
  | done ↦ 0
]

abbrev has_left : Pc → Bool
has_left at_exit = true
has_left done = true
has_left _ = false

abbrev pub is_done : Pc → Bool
is_done done = true
is_done _ = false

abbrev worker : Pc → ℕ → Worker
worker p r = record { pc = p; rounds = r }

record Moved (c : ℕ) (h : Bool) (w : Worker) (c' : ℕ) (h' : Bool) (w' : Worker) : Type 0 where
  bound : c' ≤ max_packets
  grows : c ≤ c'
  rounds : begun w' + c ≡ begun w + c'
  mutex : inside w' + number h ≡ inside w + number h'
  spent : left w' + 4 * (max_packets - c') + 1 ≡ left w + 4 * (max_packets - c)
  full : has_left w'.pc ≡ true → max_packets ≤ c'

Move-Moved :
    {c r c' r' : ℕ} {h h' : Bool} {p p' : Pc}
    → Move c h r p c' h' p' r'
    → c ≤ max_packets
    → (has_left p ≡ true → max_packets ≤ c)
    → inside (worker p r) ≤ number h
    → Moved c h (worker p r) c' h' (worker p' r')
Move-Moved (lock e) b f i = ground arith
Move-Moved (enter e) b f i = ground arith
Move-Moved (leave e) b f i = ground arith
Move-Moved unlock b f i = ground arith
Move-Moved finish_round b f i = ground arith
Move-Moved unlock_last b f i = ground arith

record Inv (n m : ℕ) (s : Shop) : Type 0 where
  bound : s.counter ≤ max_packets
  rounds : sum_of begun n s.workers ≡ s.counter
  mutex : sum_of inside n s.workers ≡ number s.held
  spent : m + (sum_of left n s.workers + 4 * (max_packets - s.counter)) ≡ 4 * max_packets + 3 * n
  full : (i : ℕ) → i < n → has_left (s.workers i).pc ≡ true → max_packets ≤ s.counter

Step-Inv : {n m : ℕ} {s t : Shop} → Step n s t → Inv n m s → Inv n (suc m) t
Step-Inv {n} {m} {s} (moves i {c} {h} {p} {r} lt move) v =
    let w' = worker p r in
    let d =
      Move-Moved move v.bound (v.full i lt)
        (omega (arith, v.mutex, sum_of-share inside n s.workers i lt)) in
    record {
      bound = d.bound;
      rounds = omega (arith, v.rounds, d.rounds, sum_of-put_at begun n s.workers i w' lt);
      mutex = omega (arith, v.mutex, d.mutex, sum_of-put_at inside n s.workers i w' lt);
      spent = omega (arith, v.spent, d.spent, sum_of-put_at left n s.workers i w' lt);
      full = λ j more e. elim (Bool-cases (j == i)) [
        | inl same ↦ ground (arith, d.full)
        | inr other ↦ ground (arith, v.full j more, d.grows)
      ];
    }

opening-Inv : (n : ℕ) → Inv n 0 opening
opening-Inv n = record {
  bound = omega arith;
  rounds = omega (arith, sum_of-const begun n (worker at_lock 0));
  mutex = omega (arith, sum_of-const inside n (worker at_lock 0));
  spent = omega (arith, sum_of-const left n (worker at_lock 0));
  full = λ i h e. absurd (cc);
}

Reach-Inv : {n m : ℕ} {s : Shop} → Reach n m s → Inv n m s
Reach-Inv {n} start = opening-Inv n
Reach-Inv (later r st) = Step-Inv st (Reach-Inv r)

-- In every state that is reached: no two threads are between pthread_mutex_lock and
-- pthread_mutex_unlock at once, and if one is, the mutex is held.
pub exclusion :
    {n m : ℕ} {s : Shop}
    → Reach n m s
    → (sum_of inside n s.workers ≤ 1) × (sum_of inside n s.workers ≡ (if s.held then 1 else 0))
exclusion r = let v = Reach-Inv r in (ground (arith, v.mutex), v.mutex)

-- In every state that is reached: with at least one thread, when all have returned they have
-- completed MAX_PACKETS rounds in total.
pub all_rounds :
    {n m : ℕ} {s : Shop}
    → Reach n m s
    → 0 < n
    → ((i : ℕ) → i < n → is_done (s.workers i).pc ≡ true)
    → sum_of (λ w. w.rounds) n s.workers ≡ max_packets
all_rounds {n} {s} r some_one finished =
    let v = Reach-Inv r in
    let same =
      sum_of-same begun (λ w. w.rounds) n s.workers (λ i h. ground (arith, finished i h)) in
    let full : max_packets ≤ s.counter = ground (arith, v.full 0 some_one, finished 0 some_one) in
    omega (arith, v.rounds, v.bound, same)

-- No run of n threads makes more than 80 moves and 3 for each thread.
moves_bound : {n m : ℕ} {s : Shop} → Reach n m s → m ≤ 80 + 3 * n
moves_bound r = omega (arith, (Reach-Inv r).spent)

-- The moves that n threads have left together, at most 80 and 3 for each thread.
pub work : ℕ → Shop → ℕ
work n s = sum_of left n s.workers + 4 * (max_packets - s.counter)

-- Every move is one of them.
pub work-Step : {n m : ℕ} {s t : Shop} → Reach n m s → Step n s t → suc (work n t) ≡ work n s
unfolding work
work-Step r st = omega (arith, (Reach-Inv r).spent, (Reach-Inv (later r st)).spent)

-- A thread has returned only when the counter was full.
pub done-full :
    {n m : ℕ} {s : Shop} (i : ℕ)
    → Reach n m s
    → i < n
    → is_done (s.workers i).pc ≡ true
    → max_packets ≤ s.counter
done-full i r lt e = ground (arith, (Reach-Inv r).full i lt)

-- A thread can move unless it has returned or waits for the mutex while that is held.
next-Move :
    (c : ℕ) (h : Bool) (r : ℕ) (p : Pc)
    → is_done p ≡ false
    → (h ≡ false) ⊎ (0 < inside (worker p r))
    → (c' : ℕ) × (h' : Bool) × (p' : Pc) × (r' : ℕ) × Move c h r p c' h' p' r'
next-Move c h r at_lock e (inl free) = (c, true, at_test, r, lock free)
next-Move c h r at_lock e (inr has) = absurd (omega arith)
next-Move c h r at_test e why = elim (dec_lt c max_packets) [
  | yes more ↦ (suc c, h, counted, r, enter more)
  | no enough ↦ (c, h, at_exit, r, leave (omega arith))
]
next-Move c h r counted e why = (c, false, in_round, r, unlock)
next-Move c h r in_round e why = (c, h, at_lock, suc r, finish_round)
next-Move c h r at_exit e why = (c, false, done, r, unlock_last)
next-Move c h r done e why = absurd (cc)

inside-is_done : (p : Pc) (r : ℕ) → 0 < inside (worker p r) → is_done p ≡ false
inside-is_done p r h = ground arith

-- In every state that is reached: as long as some thread has not returned, some thread can move.
pub no_deadlock :
    {n m : ℕ} {s : Shop} (i : ℕ)
    → Reach n m s
    → i < n
    → is_done (s.workers i).pc ≡ false
    → (t : Shop) × Step n s t
no_deadlock {n} {s} i r lt e =
    let c = s.counter in
    let h = s.held in
    elim (Bool-cases h) [
      | inl taken ↦
          let (j, more, has) =
            sum_of-some inside n s.workers (ground (arith, (Reach-Inv r).mutex)) in
          let w = s.workers j in
          let go = next-Move c h w.rounds w.pc (inside-is_done w.pc w.rounds has) (inr has) in
          (_, moves j more go.4)
      | inr free ↦
          let w = s.workers i in
          let go = next-Move c h w.rounds w.pc e (inl free) in (_, moves i lt go.4)
    ]
