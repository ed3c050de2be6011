-- ===== src/Workers/Loop.antt =====
-- The loop of `run_producer` in Praktikum 3/producer.c and of `run_consumer` in Praktikum
-- 3/consumer.c, which have the same text: threads that run in any order over a counter and the
-- mutex in front of it. What a round does to the queue does not matter here.
use ws2425_bs_praktikum.Base.{ℕ, suc, ◌≤◌, ◌<◌, ◌≡◌, Bool, true, false}
use ws2425_bs_praktikum.Base.Threads.{put_at}

abbrev pub max_packets : ℕ
max_packets = 20

-- Where a thread stands.
pub data Pc : Type 0 where
  at_lock : Pc  -- before pthread_mutex_lock, the first or the one at the end of a round
  at_test : Pc  -- before the test of the loop, with the mutex
  counted : Pc  -- behind the increment, with the mutex
  in_round : Pc  -- in create_queue_element or consume_queue_element, without the mutex
  at_exit : Pc  -- behind the loop, with the mutex
  done : Pc  -- returned

-- A thread, and how many rounds it has completed.
pub record Worker : Type 0 where
  pub pc : Pc
  pub rounds : ℕ

-- One move of a thread, with the counter, whether the mutex is held, and its own state, before and
-- after.
pub data Move (counter : ℕ) (held : Bool) (rounds : ℕ) : Pc → ℕ → Bool → Pc → ℕ → Type 0 where
  lock : held ≡ false → Move counter held rounds at_lock counter true at_test rounds
  enter : counter < max_packets → Move counter held rounds at_test (suc counter) held counted rounds
  leave : max_packets ≤ counter → Move counter held rounds at_test counter held at_exit rounds
  unlock : Move counter held rounds counted counter false in_round rounds
  finish_round : Move counter held rounds in_round counter held at_lock (suc rounds)
  unlock_last : Move counter held rounds at_exit counter false done rounds

pub record Shop : Type 0 where
  pub counter : ℕ
  pub held : Bool
  pub workers : ℕ → Worker

-- The threads as main creates them.
abbrev pub opening : Shop
opening = record { counter = 0; held = false; workers = λ _. record { pc = at_lock; rounds = 0 } }

pub data Step (n : ℕ) (s : Shop) : Shop → Type 0 where
  moves :
      (i : ℕ) {c : ℕ} {h : Bool} {p : Pc} {r : ℕ}
      → i < n
      → Move s.counter s.held (s.workers i).rounds (s.workers i).pc c h p r
      → Step n s (record {
        counter = c;
        held = h;
        workers = put_at s.workers i (record { pc = p; rounds = r });
      })

-- What n threads reach in so many moves.
pub data Reach (n : ℕ) : ℕ → Shop → Type 0 where
  start : Reach n 0 opening
  later : {m : ℕ} {s t : Shop} → Reach n m s → Step n s t → Reach n (suc m) t
