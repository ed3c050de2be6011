-- ===== src/Race/Outcome.antt =====
-- How the race of Praktikum 2 Aufg 2/main.c ends, whatever the order of the threads' moves.
use ws2425_bs_praktikum.Base.{
  ℕ, suc, ◌*◌, ◌≤◌, ◌<◌, ◌≡◌, ◌≢◌, refl, ◌⊎◌, inl, inr, Bool, true, false, arith, ◌==◌, Bool-cases,
}
use ws2425_bs_praktikum.Base.Threads.{put_at}
use ws2425_bs_praktikum.Race.Flight.{
  runden, Pc, lap, crashing, slept, crash_out, gave_up, arrived, Flight, Move, crash, report, fly,
  give_up, next_lap, arrive, Race, Step, moves, Reach, start, later,
}

-- What a thread's state says while nobody has crashed; `laps` full laps took between 21 and 999
-- each.
abbrev InTime : ℕ → ℕ → Type 0
InTime laps t = (21 * laps ≤ t) × (t ≤ 999 * laps)

abbrev OnCourse : Pc → ℕ → Type 0
OnCourse (lap i) t = (i ≤ runden) × InTime i t
OnCourse crashing t = Unit
OnCourse (slept i) t = (i < runden) × InTime (suc i) t
OnCourse crash_out t = ⊥
OnCourse gave_up t = ⊥
OnCourse arrived t = InTime runden t

-- While nobody has crashed every racer is on course; afterwards there is one who did.
record Inv (n : ℕ) (s : Race) : Type 0 where
  clear : s.crashed ≡ false → (i : ℕ) → OnCourse (s.flights i).pc (s.flights i).rennzeit
  culprit : s.crashed ≡ true → (i : ℕ) × (i < n) × ((s.flights i).pc ≡ crash_out)

Move-OnCourse :
    {c c' : Bool} {t t' : ℕ} {p p' : Pc}
    → Move c t p c' p' t'
    → c' ≡ false
    → OnCourse p t
    → OnCourse p' t'
Move-OnCourse (crash h r z e) q o = tt
Move-OnCourse report q o = absurd (cc)
Move-OnCourse (fly h r z) q o = ground arith
Move-OnCourse (give_up e) q o = absurd (cc)
Move-OnCourse (next_lap e) q o = omega arith
Move-OnCourse (arrive e) q o = ground arith

-- `crashed` is never reset.
Move-crashed : {c c' : Bool} {t t' : ℕ} {p p' : Pc} → Move c t p c' p' t' → c' ≡ false → c ≡ false
Move-crashed report q = absurd (cc)
Move-crashed (crash h r z e) q = q
Move-crashed (fly h r z) q = q
Move-crashed (give_up e) q = q
Move-crashed (next_lap e) q = q
Move-crashed (arrive e) q = q

-- A thread that has returned does not move, and who sets `crashed` returns next.
Move-culprit :
    {c c' : Bool} {t t' : ℕ} {p p' : Pc}
    → Move c t p c' p' t'
    → (p ≢ crash_out) × ((c' ≡ c) ⊎ (p' ≡ crash_out))
Move-culprit report = (λ e. cc, inr refl)
Move-culprit (crash h r z e) = (λ e. cc, inl refl)
Move-culprit (fly h r z) = (λ e. cc, inl refl)
Move-culprit (give_up e) = (λ e. cc, inl refl)
Move-culprit (next_lap e) = (λ e. cc, inl refl)
Move-culprit (arrive e) = (λ e. cc, inl refl)

module _ {n : ℕ} {s : Race} (inv : Inv n s) (i : ℕ) (h : i < n) {c : Bool} {p : Pc} {t : ℕ}
    (m : Move s.crashed (s.flights i).rennzeit (s.flights i).pc c p t) where
  abbrev after : ℕ → Flight
  after = put_at s.flights i (record { pc = p; rennzeit = t })

  keep_clear : c ≡ false → (j : ℕ) → OnCourse (after j).pc (after j).rennzeit
  keep_clear e j =
      let own = Move-OnCourse m e (inv.clear (Move-crashed m e) i) in
      let others = inv.clear (Move-crashed m e) j in
      elim (Bool-cases (j == i)) [ inl here ↦ rw here own | inr away ↦ rw away others ]

  keep_culprit : c ≡ true → (j : ℕ) × (j < n) × ((after j).pc ≡ crash_out)
  keep_culprit e = elim (Move-culprit m).1 [
    | inl same ↦ let (j, hj, out) = inv.culprit (cc) in (j, hj, ground (arith, (Move-culprit m).0))
    | inr out ↦ (i, h, ground arith)
  ]

  Move-Inv : Inv n (record { crashed = c; flights = after })
  Move-Inv = record { clear = keep_clear; culprit = keep_culprit }

Step-Inv : {n : ℕ} {s t : Race} → Step n s t → Inv n s → Inv n t
Step-Inv (moves i h m) inv = Move-Inv inv i h m

Reach-Inv : {n m : ℕ} {s : Race} → Reach n m s → Inv n s
Reach-Inv start = record { clear = λ e i. omega arith; culprit = λ e. absurd (cc) }
Reach-Inv (later r st) = Step-Inv st (Reach-Inv r)

abbrev pub has_returned : Pc → Bool
has_returned crash_out = true
has_returned gave_up = true
has_returned arrived = true
has_returned _ = false

-- In every state that is reached: if `crashed` is not set, a racer that has returned has arrived
-- after all laps, with a time between 105 and 4995.
clear_race :
    {n m : ℕ} {s : Race} (i : ℕ)
    → Reach n m s
    → s.crashed ≡ false
    → has_returned (s.flights i).pc ≡ true
    → ((s.flights i).pc ≡ arrived)
      × (105 ≤ (s.flights i).rennzeit)
      × ((s.flights i).rennzeit ≤ 4995)
clear_race {s} i r e back =
    finished (s.flights i).pc (s.flights i).rennzeit back ((Reach-Inv r).clear e i)
  where
    finished :
        (p : Pc) (t : ℕ)
        → has_returned p ≡ true
        → OnCourse p t
        → (p ≡ arrived) × (105 ≤ t) × (t ≤ 4995)
    finished arrived t e o = (refl, omega arith, omega arith)
    finished (lap i) t e o = absurd (cc)
    finished crashing t e o = absurd (cc)
    finished (slept i) t e o = absurd (cc)
    finished crash_out t e o = absurd o
    finished gave_up t e o = absurd o
