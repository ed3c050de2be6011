-- ===== src/Race/Flight.antt =====
-- The threads of Praktikum 2 Aufg 2/main.c: `fliegen`, a shared access at a time, for racers that
-- run in any order over the variable `crashed`.
use ws2425_bs_praktikum.Base.{ℕ, suc, ◌+◌, ◌≤◌, ◌<◌, ◌≡◌, ◌⊎◌, Bool, true, false}
use ws2425_bs_praktikum.Base.Threads.{put_at}

abbrev pub runden : ℕ
runden = 5

abbrev pub anzahl_racer : ℕ
anzahl_racer = 5

abbrev pub crash_factor : ℕ
crash_factor = 20

-- Where `fliegen` stands.
pub data Pc : Type 0 where
  lap : (i : ℕ) → Pc  -- the head of the loop
  crashing : Pc  -- its own crash is decided, `crashed = true` is next
  slept : (i : ℕ) → Pc  -- behind usleep, before the test of `crashed`
  crash_out : Pc  -- returned after its own crash
  gave_up : Pc  -- returned because some racer crashed
  arrived : Pc  -- returned after all laps

-- A thread: where it stands, and the rennzeit of its racer.
pub record Flight : Type 0 where
  pub pc : Pc
  pub rennzeit : ℕ

-- One move of a thread, with the value of `crashed` and its own state before and after. The value
-- of rand() % 1000 is any number below 1000.
pub data Move (crashed : Bool) (t : ℕ) : Pc → Bool → Pc → ℕ → Type 0 where
  crash :
      {i zeit : ℕ}
      → i < runden
      → zeit < 1000
      → zeit ≤ crash_factor
      → crashed ≡ false
      → Move crashed t (lap i) crashed crashing t
  report : Move crashed t crashing true crash_out t
  fly :
      {i zeit : ℕ}
      → i < runden
      → zeit < 1000
      → (crash_factor < zeit) ⊎ (crashed ≡ true)
      → Move crashed t (lap i) crashed (slept i) (t + zeit)
  give_up : {i : ℕ} → crashed ≡ true → Move crashed t (slept i) crashed gave_up t
  next_lap : {i : ℕ} → crashed ≡ false → Move crashed t (slept i) crashed (lap (suc i)) t
  arrive : {i : ℕ} → i ≡ runden → Move crashed t (lap i) crashed arrived t

pub record Race : Type 0 where
  pub crashed : Bool
  pub flights : ℕ → Flight

-- createPodProcesses: every thread before its first lap. A thread that is created later is one
-- that moves later.
abbrev pub grid : Race
grid = record { crashed = false; flights = λ _. record { pc = lap 0; rennzeit = 0 } }

pub data Step (n : ℕ) (s : Race) : Race → Type 0 where
  moves :
      (i : ℕ) {c : Bool} {p : Pc} {t : ℕ}
      → i < n
      → Move s.crashed (s.flights i).rennzeit (s.flights i).pc c p t
      → Step n s
          (record { crashed = c; flights = put_at s.flights i (record { pc = p; rennzeit = t }) })

-- What n racers reach in so many moves.
pub data Reach (n : ℕ) : ℕ → Race → Type 0 where
  start : Reach n 0 grid
  later : {m : ℕ} {s t : Race} → Reach n m s → Step n s t → Reach n (suc m) t
