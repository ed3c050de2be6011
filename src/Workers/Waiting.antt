-- ===== src/Workers/Waiting.antt =====
-- The whole program of Praktikum 3 while main waits: the moves of the threads that it joins.
use native.Mathlib.Decide.{dec_lt}
use native.Mathlib.Nat.{le_refl}
use mathlib.Core.Path.{sym, subst}
use ws2425_bs_praktikum.Base.{
  ℕ, zero, suc, ◌+◌, ◌-◌, ◌≤◌, ◌<◌, ◌≡◌, refl, arith, inl, inr, Bool-cases,
}
use ws2425_bs_praktikum.Workers.Loop
use ws2425_bs_praktikum.Workers.Loop.{max_packets, Shop}
use ws2425_bs_praktikum.Workers.Shifts.{is_done, work, work-Step, done-full, no_deadlock}
use ws2425_bs_praktikum.Workers.Program.{
  Watch, at_while, printing, ended, WatchMove, wake, print_if_done, MainPc, joining_producers,
  joining_consumers, joining_observer, joining_queue, returned, Program, MainMove, join_producer,
  producers_joined, join_consumer, consumers_joined, join_observer, join_queue, Step,
  producer_moves, consumer_moves, observer_moves, queue_returns, main_moves, makers_started,
  takers_started, Reach, later,
}
use ws2425_bs_praktikum.Workers.Joining.{Makers, Takers, Reach-Inv}

module _ (producers consumers : ℕ) where
  -- Some moves of the threads, one after the other.
  pub data Runs : Program → Program → Type 0 where
    here : {s : Program} → Runs s s
    go_on : {s t u : Program} → Step producers consumers s t → Runs t u → Runs s u

  abbrev pub CanReturn : Program → Type 0
  CanReturn s = (t : Program) × Runs s t × (t.main ≡ returned)

  pub after_step : {s t : Program} → Step producers consumers s t → CanReturn t → CanReturn s
  after_step st (u, runs, e) = (u, go_on st runs, e)

  pub main_goes :
      {s : Program} {q p : MainPc}
      → s.main ≡ q
      → MainMove producers consumers s q p
      → Step producers consumers s (record s { main = p })
  main_goes {s} {q} {p} e mv =
      main_moves (subst (λ q. MainMove producers consumers s q p) (sym e) mv)

  producer_goes :
      {s : Program} {i : ℕ} {t : Shop}
      → s.main ≡ joining_producers i
      → Loop.Step producers s.makers t
      → Step producers consumers s (record s { makers = t })
  producer_goes {s} {i} {t} e st =
      producer_moves
        (subst (λ p. Loop.Step (makers_started producers consumers p) s.makers t) (sym e) st)

  consumer_goes :
      {s : Program} {i : ℕ} {t : Shop}
      → s.main ≡ joining_consumers i
      → Loop.Step consumers s.takers t
      → Step producers consumers s (record s { takers = t })
  consumer_goes {s} {i} {t} e st =
      consumer_moves
        (subst (λ p. Loop.Step (takers_started producers consumers p) s.takers t) (sym e) st)

  watch_goes :
      {s : Program} {w w' : Watch}
      → s.main ≡ joining_observer
      → s.observer ≡ w
      → WatchMove s.takers.counter w w'
      → Step producers consumers s (record s { observer = w' })
  watch_goes {s} {w} {w'} e at mv =
      observer_moves (rw e refl) (subst (λ w. WatchMove s.takers.counter w w') (sym at) mv)

  pub at_queue : {s : Program} → s.main ≡ joining_queue → CanReturn s
  at_queue {s} e = elim (Bool-cases s.queue_returned) [
    | inl gone ↦ after_step (main_goes e (join_queue gone)) (_, here, refl)
    | inr there ↦
        after_step (queue_returns (rw e refl) there)
          (after_step (main_goes e (join_queue refl)) (_, here, refl))
  ]

  -- The consumers have filled the counter: the observer's next test is its last.
  at_ended : {s : Program} → s.main ≡ joining_observer → s.observer ≡ ended → CanReturn s
  at_ended e over = after_step (main_goes e (join_observer over)) (at_queue refl)

  at_test :
      {s : Program}
      → s.main ≡ joining_observer
      → max_packets ≤ s.takers.counter
      → s.observer ≡ at_while
      → CanReturn s
  at_test e enough at = after_step (watch_goes e at (print_if_done enough)) (at_ended e refl)

  at_observer :
      {s : Program} (w : Watch)
      → s.main ≡ joining_observer
      → max_packets ≤ s.takers.counter
      → s.observer ≡ w
      → CanReturn s
  at_observer at_while e enough at = at_test e enough at
  at_observer printing e enough at = after_step (watch_goes e at wake) (at_test e enough refl)
  at_observer ended e enough at = at_ended e at

  pub consumers_gone :
      {s : Program}
      → Reach producers consumers s
      → s.main ≡ joining_observer
      → 0 < consumers
      → CanReturn s
  consumers_gone {s} r e some_one =
      let v = (Reach-Inv producers consumers r).1 in
      let takers = subst (λ p. Takers producers consumers p s.takers) e v in
      at_observer s.observer e (done-full 0 takers.reach some_one (takers.waited 0 some_one)) refl

  consumers_over :
      {s : Program} (i : ℕ)
      → Reach producers consumers s
      → s.main ≡ joining_consumers i
      → 0 < consumers
      → consumers ≤ i
      → CanReturn s
  consumers_over i r e some_one all =
      let st = main_goes e (consumers_joined i all) in
      after_step st (consumers_gone (later r st) refl some_one)

  -- The consumers that main waits for work until they have returned.
  pub at_consumers :
      (fuel i : ℕ) {s : Program}
      → Reach producers consumers s
      → s.main ≡ joining_consumers i
      → 0 < consumers
      → work consumers s.takers + (consumers - i) ≤ fuel
      → CanReturn s
  at_consumers zero i r e some_one bound = consumers_over i r e some_one (omega arith)
  at_consumers (suc fuel) i {s} r e some_one bound = elim (dec_lt i consumers) [
    | no all ↦ consumers_over i r e some_one (omega arith)
    | yes more ↦ elim (Bool-cases (is_done (s.takers.workers i).pc)) [
      | inl finished ↦
          let st = main_goes e (join_consumer i more finished) in
          after_step st (at_consumers fuel (suc i) (later r st) refl some_one (omega arith))
      | inr at_work ↦
          let reach =
            (subst (λ p. Takers producers consumers p s.takers) e
              (Reach-Inv producers consumers r).1).reach in
          let (t, st) = no_deadlock i reach more at_work in
          let st' = consumer_goes e st in
          after_step st' (
            at_consumers fuel i (later r st') e some_one (omega (arith, bound, work-Step reach st)))
    ]
  ]

  producers_over :
      {s : Program} (i : ℕ)
      → Reach producers consumers s
      → s.main ≡ joining_producers i
      → 0 < consumers
      → producers ≤ i
      → CanReturn s
  producers_over i r e some_one all =
      let st = main_goes e (producers_joined i all) in
      after_step st (at_consumers _ 0 (later r st) refl some_one (le_refl _))

  -- The producers that main waits for work until they have returned.
  pub at_producers :
      (fuel i : ℕ) {s : Program}
      → Reach producers consumers s
      → s.main ≡ joining_producers i
      → 0 < consumers
      → work producers s.makers + (producers - i) ≤ fuel
      → CanReturn s
  at_producers zero i r e some_one bound = producers_over i r e some_one (omega arith)
  at_producers (suc fuel) i {s} r e some_one bound = elim (dec_lt i producers) [
    | no all ↦ producers_over i r e some_one (omega arith)
    | yes more ↦ elim (Bool-cases (is_done (s.makers.workers i).pc)) [
      | inl finished ↦
          let st = main_goes e (join_producer i more finished) in
          after_step st (at_producers fuel (suc i) (later r st) refl some_one (omega arith))
      | inr at_work ↦
          let reach =
            (subst (λ p. Makers producers consumers p s.makers) e
              (Reach-Inv producers consumers r).0).reach in
          let (t, st) = no_deadlock i reach more at_work in
          let st' = producer_goes e st in
          after_step st' (
            at_producers fuel i (later r st') e some_one (omega (arith, bound, work-Step reach st)))
    ]
  ]
