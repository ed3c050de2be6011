-- ===== src/Race/Tests.antt =====
-- The theorems about Praktikum 2 Aufg 2/main.c at concrete races.
use ws2425_bs_praktikum.Base.{
  ℕ, zero, suc, ◌+◌, ◌*◌, ◌≤◌, ◌<◌, ◌≡◌, refl, inl, false, some, List, [], ◌∷◌, arith,
}
use ws2425_bs_praktikum.Base.Int.{pos}
use ws2425_bs_praktikum.Race.Sort.{PodRacer, sort}
use ws2425_bs_praktikum.Race.Ranking.{IsRanking, sort-IsRanking}
use ws2425_bs_praktikum.Race.Flight.{
  Pc, lap, slept, crash_out, arrived, Flight, Race, grid, Step, Reach, start, later, fly, next_lap,
  arrive, runden,
}
use ws2425_bs_praktikum.Race.Ending.{
  moves-le, two_crashes, moved, step_from, first_crash, at_start, before_report,
}

abbrev slow : PodRacer
slow = record { name = "Erster"; rennzeit = pos 900; thread_id = 0 }

abbrev fast : PodRacer
fast = record { name = "Zweiter"; rennzeit = pos 300; thread_id = 1 }

abbrev as_fast : PodRacer
as_fast = record { name = "Dritter"; rennzeit = pos 300; thread_id = 2 }

sort-IsRanking_example :
    (out : List PodRacer) × (sort (slow ∷ fast ∷ as_fast ∷ []) 3 ≡ some out)
    × IsRanking (slow ∷ fast ∷ as_fast ∷ []) out
sort-IsRanking_example = sort-IsRanking (slow ∷ fast ∷ as_fast ∷ []) 3 refl

abbrev flight_at : Pc → ℕ → Flight
flight_at p t = record { pc = p; rennzeit = t }

-- The only racer, i laps flown in 100 ms each.
abbrev alone : ℕ → Race
alone zero = grid
alone (suc i) =
    moved (moved (alone i) 0 false (flight_at (slept i) (i * 100 + 100))) 0 false
      (flight_at (lap (suc i)) (suc i * 100))

alone_at : (i : ℕ) → (alone i).flights 0 ≡ flight_at (lap i) (i * 100)
alone_at zero = refl
alone_at (suc i) = refl

alone_clear : (i : ℕ) → (alone i).crashed ≡ false
alone_clear zero = refl
alone_clear (suc i) = refl

abbrev twice : ℕ → ℕ
twice zero = 0
twice (suc i) = suc (suc (twice i))

alone_flies :
    (i : ℕ)
    → i < runden
    → Step 1 (alone i) (moved (alone i) 0 false (flight_at (slept i) (i * 100 + 100)))
alone_flies i h =
    let clear = alone_clear i in
    step_from (alone i) 0 (flight_at (lap i) (i * 100)) (flight_at (slept i) (i * 100 + 100))
      (omega arith) (alone_at i) (rw clear (fly {zeit = 100} h (omega arith) (inl (omega arith))))

alone_goes_on :
    (i : ℕ) → Step 1 (moved (alone i) 0 false (flight_at (slept i) (i * 100 + 100))) (alone (suc i))
alone_goes_on i =
    let zeit : suc i * 100 ≡ i * 100 + 100 = omega arith in
    let before = flight_at (slept i) (i * 100 + 100) in
    step_from (moved (alone i) 0 false before) 0 before (flight_at (lap (suc i)) (suc i * 100))
      (omega arith) refl (rw zeit (next_lap refl))

alone_reached : (i : ℕ) → i ≤ runden → Reach 1 (twice i) (alone i)
alone_reached zero h = start
alone_reached (suc i) h =
    later (later (alone_reached i (omega arith)) (alone_flies i (omega arith))) (alone_goes_on i)

abbrev finish : Race
finish = moved (alone 5) 0 false (flight_at arrived 500)

finish_reached : Reach 1 11 finish
finish_reached = later (alone_reached 5 (omega arith)) (
    step_from (alone 5) 0 (flight_at (lap 5) 500) (flight_at arrived 500) (omega arith) refl
      (arrive refl))

abbrev falling : Race
falling = moved grid 1 false before_report

falling_reached : Reach 2 1 falling
falling_reached =
    later start (step_from grid 1 at_start before_report (omega arith) refl first_crash)

moves-le_example : 11 ≤ 11 * 1
moves-le_example = moves-le finish_reached

two_crashes_example :
    (s : Race) × Reach 2 4 s × ((s.flights 0).pc ≡ crash_out) × ((s.flights 1).pc ≡ crash_out)
two_crashes_example = two_crashes 2 0 1 (omega arith) (omega arith) (omega arith)
