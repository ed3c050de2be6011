-- ===== src/Workers/Program.antt =====
-- The whole program of Praktikum 3: main.c creates the threads and joins them, while the loops of
-- producer.c and consumer.c, run_observer of observer.c and run_queue of queue.c run in any order.
-- init_queue does nothing that a thread reads. What a round does to the queue does not matter here.
use ws2425_bs_praktikum.Base.{ℕ, suc, ◌≤◌, ◌<◌, ◌≡◌, Bool, true, false}
use ws2425_bs_praktikum.Workers.Loop
use ws2425_bs_praktikum.Workers.Loop.{max_packets, Shop, opening}
use ws2425_bs_praktikum.Workers.Shifts.{is_done}

-- Where run_observer stands.
pub data Watch : Type 0 where
  at_while : Watch  -- before the test of its loop
  printing : Watch  -- in print_queue_status, or asleep
  ended : Watch  -- returned, behind print_if_done

-- c_counter is read without its mutex.
pub data WatchMove (c_counter : ℕ) : Watch → Watch → Type 0 where
  look : c_counter < max_packets → WatchMove c_counter at_while printing
  wake : WatchMove c_counter printing at_while
  print_if_done : max_packets ≤ c_counter → WatchMove c_counter at_while ended

-- Where main stands. A number is the i of the loop that it is in.
pub data MainPc : Type 0 where
  creating_producers : ℕ → MainPc
  creating_consumers : ℕ → MainPc
  creating_observer : MainPc
  creating_queue : MainPc
  joining_producers : ℕ → MainPc
  joining_consumers : ℕ → MainPc
  joining_observer : MainPc
  joining_queue : MainPc
  returned : MainPc

pub record Program : Type 0 where
  pub makers : Shop
  pub takers : Shop
  pub observer : Watch
  pub queue_returned : Bool
  pub main : MainPc

abbrev pub loaded : Program
loaded = record {
  makers = opening;
  takers = opening;
  observer = at_while;
  queue_returned = false;
  main = creating_producers 0;
}

-- Which threads exist.
abbrev pub observer_started : MainPc → Bool
observer_started (creating_producers i) = false
observer_started (creating_consumers i) = false
observer_started creating_observer = false
observer_started _ = true

abbrev pub queue_started : MainPc → Bool
queue_started creating_queue = false
queue_started p = observer_started p

-- The counts are PRODUCER_THREAD_COUNT and CONSUMER_THREAD_COUNT.
module _ (producers consumers : ℕ) where
  -- create_threads, then wait_for_termination.
  pub data MainMove (s : Program) : MainPc → MainPc → Type 0 where
    create_producer :
        (i : ℕ) → i < producers → MainMove s (creating_producers i) (creating_producers (suc i))
    producers_created :
        (i : ℕ) → producers ≤ i → MainMove s (creating_producers i) (creating_consumers 0)
    create_consumer :
        (i : ℕ) → i < consumers → MainMove s (creating_consumers i) (creating_consumers (suc i))
    consumers_created :
        (i : ℕ) → consumers ≤ i → MainMove s (creating_consumers i) creating_observer
    create_observer : MainMove s creating_observer creating_queue
    create_queue : MainMove s creating_queue (joining_producers 0)
    join_producer :
        (i : ℕ)
        → i < producers
        → is_done (s.makers.workers i).pc ≡ true
        → MainMove s (joining_producers i) (joining_producers (suc i))
    producers_joined :
        (i : ℕ) → producers ≤ i → MainMove s (joining_producers i) (joining_consumers 0)
    join_consumer :
        (i : ℕ)
        → i < consumers
        → is_done (s.takers.workers i).pc ≡ true
        → MainMove s (joining_consumers i) (joining_consumers (suc i))
    consumers_joined : (i : ℕ) → consumers ≤ i → MainMove s (joining_consumers i) joining_observer
    join_observer : s.observer ≡ ended → MainMove s joining_observer joining_queue
    join_queue : s.queue_returned ≡ true → MainMove s joining_queue returned

  abbrev pub makers_started : MainPc → ℕ
  makers_started (creating_producers i) = i
  makers_started _ = producers

  abbrev pub takers_started : MainPc → ℕ
  takers_started (creating_producers i) = 0
  takers_started (creating_consumers i) = i
  takers_started _ = consumers

  pub data Step (s : Program) : Program → Type 0 where
    producer_moves :
        {t : Shop} → Loop.Step (makers_started s.main) s.makers t → Step s (record s { makers = t })
    consumer_moves :
        {t : Shop} → Loop.Step (takers_started s.main) s.takers t → Step s (record s { takers = t })
    observer_moves :
        {w : Watch}
        → observer_started s.main ≡ true
        → WatchMove s.takers.counter s.observer w
        → Step s (record s { observer = w })
    queue_returns :
        queue_started s.main ≡ true
        → s.queue_returned ≡ false
        → Step s (record s { queue_returned = true })
    main_moves : {p : MainPc} → MainMove s s.main p → Step s (record s { main = p })

  pub data Reach : Program → Type 0 where
    start : Reach loaded
    later : {s t : Program} → Reach s → Step s t → Reach t
