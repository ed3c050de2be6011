-- ===== src/Workers/Finish.antt =====
-- The whole program of Praktikum 3: the way to its end, from each place of main.
use native.Mathlib.Decide.{dec_lt}
use native.Mathlib.Nat.{le_refl}
use ws2425_bs_praktikum.Base.{ℕ, zero, suc, ◌-◌, ◌≤◌, ◌<◌, ◌≡◌, refl, arith}
use ws2425_bs_praktikum.Workers.Program.{
  MainPc, creating_producers, creating_consumers, creating_observer, creating_queue,
  joining_producers, joining_consumers, joining_observer, joining_queue, returned, Program,
  create_producer, producers_created, create_consumer, consumers_created, create_observer,
  create_queue, Reach, later,
}
use ws2425_bs_praktikum.Workers.Waiting.{
  Runs, here, CanReturn, after_step, main_goes, at_queue, consumers_gone, at_consumers,
  at_producers,
}

module _ (producers consumers : ℕ) where
  all_created :
      {s : Program}
      → Reach producers consumers s
      → s.main ≡ creating_queue
      → 0 < consumers
      → CanReturn producers consumers s
  all_created r e some_one =
      let st = main_goes producers consumers e create_queue in
      after_step producers consumers st
        (at_producers producers consumers _ 0 (later r st) refl some_one (le_refl _))

  workers_created :
      {s : Program}
      → Reach producers consumers s
      → s.main ≡ creating_observer
      → 0 < consumers
      → CanReturn producers consumers s
  workers_created r e some_one =
      let st = main_goes producers consumers e create_observer in
      after_step producers consumers st (all_created (later r st) refl some_one)

  from_consumer :
      (fuel i : ℕ) {s : Program}
      → Reach producers consumers s
      → s.main ≡ creating_consumers i
      → 0 < consumers
      → consumers - i ≤ fuel
      → CanReturn producers consumers s
  from_consumer zero i r e some_one bound =
      let st = main_goes producers consumers e (consumers_created i (omega arith)) in
      after_step producers consumers st (workers_created (later r st) refl some_one)
  from_consumer (suc fuel) i r e some_one bound = elim (dec_lt i consumers) [
    | no all ↦
        let st = main_goes producers consumers e (consumers_created i (omega arith)) in
        after_step producers consumers st (workers_created (later r st) refl some_one)
    | yes more ↦
        let st = main_goes producers consumers e (create_consumer i more) in
        after_step producers consumers st
          (from_consumer fuel (suc i) (later r st) refl some_one (omega arith))
  ]

  from_producer :
      (fuel i : ℕ) {s : Program}
      → Reach producers consumers s
      → s.main ≡ creating_producers i
      → 0 < consumers
      → producers - i ≤ fuel
      → CanReturn producers consumers s
  from_producer zero i r e some_one bound =
      let st = main_goes producers consumers e (producers_created i (omega arith)) in
      after_step producers consumers st (from_consumer _ 0 (later r st) refl some_one (le_refl _))
  from_producer (suc fuel) i r e some_one bound = elim (dec_lt i producers) [
    | no all ↦
        let st = main_goes producers consumers e (producers_created i (omega arith)) in
        after_step producers consumers st (from_consumer _ 0 (later r st) refl some_one (le_refl _))
    | yes more ↦
        let st = main_goes producers consumers e (create_producer i more) in
        after_step producers consumers st
          (from_producer fuel (suc i) (later r st) refl some_one (omega arith))
  ]

  from_place :
      {s : Program} (p : MainPc)
      → Reach producers consumers s
      → s.main ≡ p
      → 0 < consumers
      → CanReturn producers consumers s
  from_place (creating_producers i) r e some_one = from_producer _ i r e some_one (le_refl _)
  from_place (creating_consumers i) r e some_one = from_consumer _ i r e some_one (le_refl _)
  from_place creating_observer r e some_one = workers_created r e some_one
  from_place creating_queue r e some_one = all_created r e some_one
  from_place (joining_producers i) r e some_one =
      at_producers producers consumers _ i r e some_one (le_refl _)
  from_place (joining_consumers i) r e some_one =
      at_consumers producers consumers _ i r e some_one (le_refl _)
  from_place joining_observer r e some_one = consumers_gone producers consumers r e some_one
  from_place joining_queue r e some_one = at_queue producers consumers e
  from_place returned r e some_one = (_, here, e)

  -- From every state that is reached, with at least one consumer, where a round of a worker and a
  -- print of the observer are moves that end: the program can come to its end, that is, there are
  -- moves of its threads, one after the other, that lead to a state in which main has returned.
  pub main_can_return :
      {s : Program}
      → Reach producers consumers s
      → 0 < consumers
      → (t : Program) × Runs producers consumers s t × (t.main ≡ returned)
  main_can_return {s} r some_one = from_place s.main r refl some_one
