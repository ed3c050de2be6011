-- ===== src/Workers/Joining.antt =====
-- The invariant of the whole program of Praktikum 3: what main knows at each place.
use ws2425_bs_praktikum.Base.{ℕ, ◌≡◌, refl, Bool, true, false, arith}
use ws2425_bs_praktikum.Workers.Loop
use ws2425_bs_praktikum.Workers.Loop.{
  max_packets, Pc, Move, lock, enter, leave, unlock, finish_round, unlock_last, Shop, opening,
  moves,
}
use ws2425_bs_praktikum.Workers.Program.{
  ended, MainPc, joining_producers, joining_consumers, joining_observer, joining_queue, returned,
  Program, loaded, MainMove, create_producer, producers_created, create_consumer, consumers_created,
  create_observer, create_queue, join_producer, producers_joined, join_consumer, consumers_joined,
  join_observer, join_queue, makers_started, takers_started, Step, producer_moves, consumer_moves,
  observer_moves, queue_returns, main_moves, Reach, start, later,
}
use ws2425_bs_praktikum.Workers.Crew.{
  Crew, Crew-Step, Crew-main, Watched, Loop_Step-grows, WatchMove-not_ended, WatchMove-ended,
}

module _ (producers consumers : ℕ) where
  -- What main has waited for at a place.
  abbrev pub producers_joined_at : MainPc → ℕ
  producers_joined_at (joining_producers i) = i
  producers_joined_at (joining_consumers i) = producers
  producers_joined_at joining_observer = producers
  producers_joined_at joining_queue = producers
  producers_joined_at returned = producers
  producers_joined_at _ = 0

  abbrev pub consumers_joined_at : MainPc → ℕ
  consumers_joined_at (joining_consumers i) = i
  consumers_joined_at joining_observer = consumers
  consumers_joined_at joining_queue = consumers
  consumers_joined_at returned = consumers
  consumers_joined_at _ = 0

  abbrev pub observer_joined_at : MainPc → Bool
  observer_joined_at joining_queue = true
  observer_joined_at returned = true
  observer_joined_at _ = false

  abbrev pub queue_joined_at : MainPc → Bool
  queue_joined_at returned = true
  queue_joined_at _ = false

  abbrev pub Makers : MainPc → Shop → Type 0
  Makers p = Crew producers (makers_started producers consumers p) (producers_joined_at p)

  abbrev pub Takers : MainPc → Shop → Type 0
  Takers p = Crew consumers (takers_started producers consumers p) (consumers_joined_at p)

  abbrev pub Inv : Program → Type 0
  Inv s =
      Makers s.main s.makers
      × Takers s.main s.takers
      × Watched (observer_joined_at s.main) s.observer s.takers.counter
      × (queue_joined_at s.main ≡ true → s.queue_returned ≡ true)

  -- main's own moves: it only starts threads, and waits for one before it goes on.
  Makers-MainMove :
      {s : Program} {q p : MainPc}
      → MainMove producers consumers s q p
      → Makers q s.makers
      → Makers p s.makers
  Makers-MainMove (create_producer i lt) v = Crew-main v (omega arith) (λ j h. absurd (omega arith))
  Makers-MainMove (producers_created i le) v = Crew-main v (omega (arith, v.range)) v.waited
  Makers-MainMove (create_consumer i lt) v = Crew-main v (omega arith) v.waited
  Makers-MainMove (consumers_created i le) v = Crew-main v (omega arith) v.waited
  Makers-MainMove create_observer v = Crew-main v (omega arith) v.waited
  Makers-MainMove create_queue v = Crew-main v (omega arith) v.waited
  Makers-MainMove (join_producer i lt e) v =
      Crew-main v (omega arith) (λ j h. ground (arith, v.waited j))
  Makers-MainMove (producers_joined i le) v =
      Crew-main v (omega arith) (λ j h. v.waited j (omega arith))
  Makers-MainMove (join_consumer i lt e) v = Crew-main v (omega arith) v.waited
  Makers-MainMove (consumers_joined i le) v = Crew-main v (omega arith) v.waited
  Makers-MainMove (join_observer e) v = Crew-main v (omega arith) v.waited
  Makers-MainMove (join_queue e) v = Crew-main v (omega arith) v.waited

  Takers-MainMove :
      {s : Program} {q p : MainPc}
      → MainMove producers consumers s q p
      → Takers q s.takers
      → Takers p s.takers
  Takers-MainMove (create_producer i lt) v = Crew-main v (omega arith) v.waited
  Takers-MainMove (producers_created i le) v = Crew-main v (omega arith) v.waited
  Takers-MainMove (create_consumer i lt) v = Crew-main v (omega arith) (λ j h. absurd (omega arith))
  Takers-MainMove (consumers_created i le) v = Crew-main v (omega (arith, v.range)) v.waited
  Takers-MainMove create_observer v = Crew-main v (omega arith) v.waited
  Takers-MainMove create_queue v = Crew-main v (omega arith) v.waited
  Takers-MainMove (join_producer i lt e) v = Crew-main v (omega arith) v.waited
  Takers-MainMove (producers_joined i le) v =
      Crew-main v (omega arith) (λ j h. absurd (omega arith))
  Takers-MainMove (join_consumer i lt e) v =
      Crew-main v (omega arith) (λ j h. ground (arith, v.waited j))
  Takers-MainMove (consumers_joined i le) v =
      Crew-main v (omega arith) (λ j h. v.waited j (omega arith))
  Takers-MainMove (join_observer e) v = Crew-main v (omega arith) v.waited
  Takers-MainMove (join_queue e) v = Crew-main v (omega arith) v.waited

  observer-MainMove :
      {s : Program} {q p : MainPc}
      → MainMove producers consumers s q p
      → (observer_joined_at q ≡ true → s.observer ≡ ended)
      → observer_joined_at p ≡ true
      → s.observer ≡ ended
  observer-MainMove (join_observer e) v h = e
  observer-MainMove (join_queue e) v h = v h
  observer-MainMove _ v h = absurd (cc)

  queue-MainMove :
      {s : Program} {q p : MainPc}
      → MainMove producers consumers s q p
      → queue_joined_at p ≡ true
      → s.queue_returned ≡ true
  queue-MainMove (join_queue e) h = e
  queue-MainMove _ h = absurd (cc)

  loaded-Inv : Inv loaded
  loaded-Inv = (
    record {
      range = omega arith;
      made = 0;
      reach = Loop.start;
      waited = λ i h. absurd (omega arith);
    },
    record {
      range = omega arith;
      made = 0;
      reach = Loop.start;
      waited = λ i h. absurd (omega arith);
    },
    record { waited = λ e. absurd (cc); enough = λ e. absurd (cc) },
    λ e. absurd (cc),
  )

  Step-Inv : {s t : Program} → Step producers consumers s t → Inv s → Inv t
  Step-Inv (producer_moves st) v = (Crew-Step st v.0, v.1, v.2, v.3)
  Step-Inv (consumer_moves st) v = (
    v.0,
    Crew-Step st v.1,
    record { waited = v.2.waited; enough = λ e. omega (arith, v.2.enough e, Loop_Step-grows st) },
    v.3,
  )
  Step-Inv (observer_moves on mv) v = (
    v.0,
    v.1,
    record {
      waited = λ e. absurd (WatchMove-not_ended mv (v.2.waited e));
      enough = WatchMove-ended mv;
    },
    v.3,
  )
  Step-Inv (queue_returns on there) v = (v.0, v.1, v.2, λ e. refl)
  Step-Inv (main_moves mv) v = (
    Makers-MainMove mv v.0,
    Takers-MainMove mv v.1,
    record { waited = observer-MainMove mv v.2.waited; enough = v.2.enough },
    queue-MainMove mv,
  )

  pub Reach-Inv : {s : Program} → Reach producers consumers s → Inv s
  Reach-Inv start = loaded-Inv
  Reach-Inv (later r st) = Step-Inv st (Reach-Inv r)
