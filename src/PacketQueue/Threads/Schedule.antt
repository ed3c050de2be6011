-- ===== src/PacketQueue/Threads/Schedule.antt =====
-- Calls of Praktikum 3/queue.c that move as a list of numbers says. A call whose mutex is held
-- stays where it is.
use ws2425_bs_praktikum.Base.{ℕ, ◌<◌, ◌≡◌, refl, List, [], ◌∷◌}
use ws2425_bs_praktikum.Base.Threads.{put_at}
use ws2425_bs_praktikum.PacketQueue.Store.{Store, Run, ok, blocked, fault, out_of_fuel}
use ws2425_bs_praktikum.PacketQueue.Ordered.{Call}
use ws2425_bs_praktikum.PacketQueue.Threads.Blocks.{
  Pc, entering, block, System, Log, logged, Reach, start, later,
}

abbrev pub at_start : Store → System × Log
at_start s = (record { store = s; pc = λ _. entering }, [])

abbrev pub after : ℕ → Run Pc → System × Log → System × Log
after i (ok p t) (y, log) = (record { store = t; pc = put_at y.pc i p }, logged i p log)
after i _ z = z

abbrev pub schedule : (ℕ → Call) → List ℕ → System × Log → System × Log
schedule job [] z = z
schedule job (i ∷ is) z = schedule job is (after i (block (job i) (z.0.pc i) z.0.store) z)

abbrev pub AllBelow : ℕ → List ℕ → Type 0
AllBelow n [] = Unit
AllBelow n (i ∷ is) = (i < n) × AllBelow n is

after-Reach :
    (n : ℕ) (job : ℕ → Call) (s : Store) (i : ℕ) (y : System) (log : Log) (r : Run Pc)
    → block (job i) (y.pc i) y.store ≡ r
    → i < n
    → Reach n job s y log
    → Reach n job s (after i r (y, log)).0 (after i r (y, log)).1
after-Reach n job s i y log (ok p t) e lt h = later h i lt e
after-Reach n job s i y log blocked e lt h = h
after-Reach n job s i y log fault e lt h = h
after-Reach n job s i y log out_of_fuel e lt h = h

schedule_from :
    (n : ℕ) (job : ℕ → Call) (s : Store) (is : List ℕ) (z : System × Log)
    → AllBelow n is
    → Reach n job s z.0 z.1
    → Reach n job s (schedule job is z).0 (schedule job is z).1
schedule_from n job s [] z b h = h
schedule_from n job s (i ∷ is) z (lt, b) h =
    schedule_from n job s is (after i (block (job i) (z.0.pc i) z.0.store) z) b
      (after-Reach n job s i z.0 z.1 (block (job i) (z.0.pc i) z.0.store) refl lt h)

pub schedule-Reach :
    (n : ℕ) (job : ℕ → Call) (s : Store) (is : List ℕ)
    → AllBelow n is
    → Reach n job s (schedule job is (at_start s)).0 (schedule job is (at_start s)).1
schedule-Reach n job s is b = schedule_from n job s is (at_start s) b start
