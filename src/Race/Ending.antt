-- ===== src/Race/Ending.antt =====
-- That the race of Praktikum 2 Aufg 2/main.c ends, and what the unlocked test of `crashed` allows.
use native.Mathlib.Decide.{dec_lt}
use ws2425_bs_praktikum.Base.{
  ℕ, suc, ◌+◌, ◌-◌, ◌*◌, ◌≤◌, ◌<◌, ◌≡◌, ◌≢◌, refl, inl, inr, Bool, true, false, arith, ◌==◌,
  Bool-cases,
}
use ws2425_bs_praktikum.Base.Threads.{put_at, sum_of, sum_of-put_at, sum_of-const}
use ws2425_bs_praktikum.Race.Flight.{
  runden, Pc, lap, crashing, slept, crash_out, gave_up, arrived, Flight, Move, crash, report, fly,
  give_up, next_lap, arrive, Race, grid, Step, moves, Reach, start, later,
}
use ws2425_bs_praktikum.Race.Outcome.{has_returned}

-- How many moves a thread has left at most.
abbrev moves_left : Pc → ℕ
moves_left (lap i) = 2 * (runden - i) + 1
moves_left crashing = 1
moves_left (slept i) = 2 * (runden - i)
moves_left _ = 0

abbrev InRange : Pc → Type 0
InRange (lap i) = i ≤ runden
InRange (slept i) = i < runden
InRange _ = Unit

abbrev left : Flight → ℕ
left f = moves_left f.pc

Move-InRange : {c c' : Bool} {t t' : ℕ} {p p' : Pc} → Move c t p c' p' t' → InRange p → InRange p'
Move-InRange (crash h r z e) o = tt
Move-InRange report o = tt
Move-InRange (fly h r z) o = h
Move-InRange (give_up e) o = tt
Move-InRange (next_lap e) o = o
Move-InRange (arrive e) o = tt

Move-left :
    {c c' : Bool} {t t' : ℕ} {p p' : Pc}
    → Move c t p c' p' t'
    → InRange p
    → suc (moves_left p') ≤ moves_left p
Move-left (crash h r z e) o = omega arith
Move-left report o = omega arith
Move-left (fly h r z) o = omega arith
Move-left (give_up e) o = omega arith
Move-left (next_lap e) o = omega arith
Move-left (arrive e) o = omega arith

Reach-InRange : {n m : ℕ} {s : Race} → Reach n m s → (j : ℕ) → InRange (s.flights j).pc
Reach-InRange start j = omega arith
Reach-InRange (later r (moves i h m)) j = elim (Bool-cases (j == i)) [
  | inl here ↦ rw here (Move-InRange m (Reach-InRange r i))
  | inr away ↦ rw away (Reach-InRange r j)
]

Reach-left : {n m : ℕ} {s : Race} → Reach n m s → m + sum_of left n s.flights ≤ 11 * n
Reach-left {n} start = omega (arith, sum_of-const left n (record { pc = lap 0; rennzeit = 0 }))
Reach-left {n} (later {s} r (moves i {p} {t} h m)) =
    let f : Flight = record { pc = p; rennzeit = t } in
    omega
      (arith, Reach-left r, Move-left m (Reach-InRange r i), sum_of-put_at left n s.flights i f h)

-- No run of n racers makes more than 11 moves for each.
pub moves-le : {n m : ℕ} {s : Race} → Reach n m s → m ≤ 11 * n
moves-le r = omega (arith, Reach-left r)

next-Move :
    (c : Bool) (p : Pc) (t : ℕ)
    → InRange p
    → has_returned p ≡ false
    → (c' : Bool) × (p' : Pc) × (t' : ℕ) × Move c t p c' p' t'
next-Move true (lap i) t o e = elim (dec_lt i runden) [
  | yes more ↦ (true, slept i, t + 0, fly more (omega arith) (inr refl))
  | no done ↦ (true, arrived, t, arrive (omega arith))
]
next-Move false (lap i) t o e = elim (dec_lt i runden) [
  | yes more ↦ (false, slept i, t + 21, fly more (omega arith) (inl (omega arith)))
  | no done ↦ (false, arrived, t, arrive (omega arith))
]
next-Move c crashing t o e = (true, crash_out, t, report)
next-Move true (slept i) t o e = (true, gave_up, t, give_up refl)
next-Move false (slept i) t o e = (false, lap (suc i), t, next_lap refl)
next-Move c crash_out t o e = absurd (cc)
next-Move c gave_up t o e = absurd (cc)
next-Move c arrived t o e = absurd (cc)

-- In every state that is reached, a racer that has not returned can move.
pub can_move :
    {n m : ℕ} {s : Race} (i : ℕ)
    → Reach n m s
    → i < n
    → has_returned (s.flights i).pc ≡ false
    → (t : Race) × Step n s t
can_move {s} i r h e =
    let (c, p, t, m) =
      next-Move s.crashed (s.flights i).pc (s.flights i).rennzeit (Reach-InRange r i) e in
    (_, moves i h m)

abbrev pub moved : Race → ℕ → Bool → Flight → Race
moved s i c f = record { crashed = c; flights = put_at s.flights i f }

pub step_from :
    {n : ℕ} (s : Race) (i : ℕ) (f g : Flight) {c : Bool}
    → i < n
    → s.flights i ≡ f
    → Move s.crashed f.rennzeit f.pc c g.pc g.rennzeit
    → Step n s (moved s i c g)
step_from s i f g h e m = moves i h (rw e m)

abbrev pub at_start : Flight
at_start = record { pc = lap 0; rennzeit = 0 }

abbrev pub before_report : Flight
before_report = record { pc = crashing; rennzeit = 0 }

abbrev after_report : Flight
after_report = record { pc = crash_out; rennzeit = 0 }

pub first_crash : Move false 0 (lap 0) false crashing 0
first_crash = crash {zeit = 0} (omega arith) (omega arith) (omega arith) refl

-- The test of `crashed` and its setting are two steps: any two racers may both return from a crash
-- of their own, four moves after the start.
pub two_crashes :
    (n i j : ℕ)
    → i < n
    → j < n
    → i ≢ j
    → (s : Race) × Reach n 4 s × ((s.flights i).pc ≡ crash_out) × ((s.flights j).pc ≡ crash_out)
two_crashes n i j hi hj ne =
    let s1 = moved grid i false before_report in
    let s2 = moved s1 j false before_report in
    let s3 = moved s2 i true after_report in
    let s4 = moved s3 j true after_report in
    let r1 : Reach n 1 s1 =
      later start (step_from grid i at_start before_report hi refl first_crash) in
    let r2 : Reach n 2 s2 =
      later r1 (step_from s1 j at_start before_report hj (ground arith) first_crash) in
    let r3 : Reach n 3 s3 =
      later r2 (step_from s2 i before_report after_report hi (ground arith) report) in
    let r4 : Reach n 4 s4 =
      later r3 (step_from s3 j before_report after_report hj (ground arith) report) in
    (s4, r4, ground arith, ground arith)
