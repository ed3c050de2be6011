-- ===== src/Workers/Tests.antt =====
-- The theorems about the threads of Praktikum 3 at concrete runs.
use ws2425_bs_praktikum.Base.{ℕ, zero, suc, ◌≤◌, ◌<◌, ◌≡◌, refl, Bool, true, false, arith}
use ws2425_bs_praktikum.Base.Threads.{put_at, sum_of}
use ws2425_bs_praktikum.Workers.Loop.{
  max_packets, Pc, at_lock, at_test, counted, in_round, at_exit, done, Worker, Move, lock, enter,
  leave, unlock, finish_round, unlock_last, Shop, opening, Step, moves, Reach, start, later,
}
use ws2425_bs_praktikum.Workers.Shifts.{inside, is_done, exclusion}
use ws2425_bs_praktikum.Workers.Program
use ws2425_bs_praktikum.Workers.Program.{
  Program, MainPc, loaded, ended, print_if_done, joining_producers, returned, create_producer,
  producers_created, create_consumer, consumers_created, create_observer, create_queue,
  join_producer, producers_joined, join_consumer, consumers_joined, join_observer, join_queue,
  producer_moves, consumer_moves, observer_moves, queue_returns, main_moves,
}
use ws2425_bs_praktikum.Workers.Whole.{returned-all_done}
use ws2425_bs_praktikum.Workers.Waiting.{Runs}
use ws2425_bs_praktikum.Workers.Finish.{main_can_return}

abbrev worker : Pc → ℕ → Worker
worker p r = record { pc = p; rounds = r }

abbrev go : Shop → ℕ → Bool → Pc → ℕ → Shop
go s c h p r = record { counter = c; held = h; workers = put_at s.workers 0 (worker p r) }

step_from :
    {n c r : ℕ} {h : Bool} {p : Pc} (s : Shop) (c' : ℕ) (h' : Bool) (p' : Pc) (r' : ℕ)
    → 0 < n
    → s.counter ≡ c
    → s.held ≡ h
    → s.workers 0 ≡ worker p r
    → Move c h r p c' h' p' r'
    → Step n s (go s c' h' p' r')
step_from s c' h' p' r' lt a b e m = moves 0 lt (rw (a, b, e) m)

-- The first thread has done so many rounds.
abbrev after : ℕ → Shop
after zero = opening
after (suc i) =
    go (go (go (go (after i) i true at_test i) (suc i) true counted i) (suc i) false in_round i)
      (suc i) false at_lock (suc i)

abbrev four_times : ℕ → ℕ
four_times zero = 0
four_times (suc i) = suc (suc (suc (suc (four_times i))))

after-state :
    (i : ℕ)
    → ((after i).counter ≡ i) × ((after i).held ≡ false) × ((after i).workers 0 ≡ worker at_lock i)
after-state zero = (refl, refl, refl)
after-state (suc i) = (refl, refl, refl)

after_reached : (n i : ℕ) → 0 < n → i ≤ max_packets → Reach n (four_times i) (after i)
after_reached n zero lt h = start
after_reached n (suc i) lt h =
    let (a, b, e) = after-state i in
    let s1 = go (after i) i true at_test i in
    let s2 = go s1 (suc i) true counted i in
    let s3 = go s2 (suc i) false in_round i in
    let m1 = step_from (after i) i true at_test i lt a b e (lock refl) in
    let m2 = step_from s1 (suc i) true counted i lt refl refl refl (enter (omega arith)) in
    let m3 = step_from s2 (suc i) false in_round i lt refl refl refl unlock in
    let m4 = step_from s3 (suc i) false at_lock (suc i) lt refl refl refl finish_round in
    later (later (later (later (after_reached n i lt (omega arith)) m1) m2) m3) m4

abbrev testing : Shop
testing = go (after 20) 20 true at_test 20

abbrev leaving : Shop
leaving = go testing 20 true at_exit 20

abbrev closed : Shop
closed = go leaving 20 false done 20

testing_reached : (n : ℕ) → 0 < n → Reach n 81 testing
testing_reached n lt =
    later (after_reached n 20 lt (omega arith))
      (step_from (after 20) 20 true at_test 20 lt refl refl refl (lock refl))

closed_reached : Reach 1 83 closed
closed_reached =
    later
      (later (testing_reached 1 (omega arith))
        (step_from testing 20 true at_exit 20 (omega arith) refl refl refl (leave (omega arith))))
      (step_from leaving 20 false done 20 (omega arith) refl refl refl unlock_last)

exclusion_example : (sum_of inside 2 testing.workers ≤ 1) × (sum_of inside 2 testing.workers ≡ 1)
exclusion_example = exclusion (testing_reached 2 (omega arith))

-- One producer and one consumer: main starts all its threads first.
abbrev placed : MainPc → Program
placed p = record loaded { main = p }

started_reached : Program.Reach 1 1 (placed (joining_producers 0))
started_reached =
    let r1 = Program.later Program.start (main_moves (create_producer 0 (omega arith))) in
    let r2 = Program.later r1 (main_moves (producers_created 1 (omega arith))) in
    let r3 = Program.later r2 (main_moves (create_consumer 0 (omega arith))) in
    let r4 = Program.later r3 (main_moves (consumers_created 1 (omega arith))) in
    Program.later (Program.later r4 (main_moves create_observer)) (main_moves create_queue)

-- Then the producer runs alone, then the consumer.
abbrev producing : Shop → Program
producing t = record (placed (joining_producers 0)) { makers = t }

producing_reached : {m : ℕ} {t : Shop} → Reach 1 m t → Program.Reach 1 1 (producing t)
producing_reached start = started_reached
producing_reached (later r st) = Program.later (producing_reached r) (producer_moves st)

abbrev consuming : Shop → Program
consuming t = record (producing closed) { takers = t }

consuming_reached : {m : ℕ} {t : Shop} → Reach 1 m t → Program.Reach 1 1 (consuming t)
consuming_reached start = producing_reached closed_reached
consuming_reached (later r st) = Program.later (consuming_reached r) (consumer_moves st)

abbrev at_end : Program
at_end = record (consuming closed) { observer = ended; queue_returned = true; main = returned }

at_end_reached : Program.Reach 1 1 at_end
at_end_reached =
    let r1 =
      Program.later (consuming_reached closed_reached)
        (observer_moves refl (print_if_done (omega arith))) in
    let r2 = Program.later r1 (queue_returns refl refl) in
    let r3 = Program.later r2 (main_moves (join_producer 0 (omega arith) refl)) in
    let r4 = Program.later r3 (main_moves (producers_joined 1 (omega arith))) in
    let r5 = Program.later r4 (main_moves (join_consumer 0 (omega arith) refl)) in
    let r6 = Program.later r5 (main_moves (consumers_joined 1 (omega arith))) in
    Program.later (Program.later r6 (main_moves (join_observer refl)))
      (main_moves (join_queue refl))

returned-all_done_example :
    ((i : ℕ) → i < 1 → is_done (closed.workers i).pc ≡ true)
    × ((i : ℕ) → i < 1 → is_done (closed.workers i).pc ≡ true)
    × (sum_of (λ w. w.rounds) 1 closed.workers ≡ 20)
    × (sum_of (λ w. w.rounds) 1 closed.workers ≡ 20)
    × (at_end.observer ≡ ended)
    × (at_end.queue_returned ≡ true)
    × (20 ≤ closed.counter)
returned-all_done_example = returned-all_done 1 1 at_end_reached refl (omega arith) (omega arith)

main_can_return_example : (t : Program) × Runs 1 1 (consuming testing) t × (t.main ≡ returned)
main_can_return_example =
    main_can_return 1 1 (consuming_reached (testing_reached 1 (omega arith))) (omega arith)
