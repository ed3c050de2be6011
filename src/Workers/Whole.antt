-- ===== src/Workers/Whole.antt =====
-- The whole program of Praktikum 3: what has happened when main returns.
use ws2425_bs_praktikum.Base.{ℕ, ◌≤◌, ◌<◌, ◌≡◌, refl, true}
use ws2425_bs_praktikum.Base.Threads.{sum_of}
use ws2425_bs_praktikum.Workers.Loop.{max_packets, Shop}
use ws2425_bs_praktikum.Workers.Shifts.{is_done, all_rounds}
use ws2425_bs_praktikum.Workers.Program.{ended, returned, Program, Reach}
use mathlib.Core.Path.{subst}
use ws2425_bs_praktikum.Workers.Crew.{Crew}
use ws2425_bs_praktikum.Workers.Joining.{Makers, Takers, Reach-Inv}

Crew-rounds :
    {total : ℕ} {s : Shop}
    → Crew total total total s
    → 0 < total
    → sum_of (λ w. w.rounds) total s.workers ≡ max_packets
Crew-rounds v some_one = all_rounds v.reach some_one v.waited

module _ (producers consumers : ℕ) where
  -- In every state that is reached in which main has returned, with at least one producer and one
  -- consumer: all threads have returned, the producers have completed MAX_PACKETS rounds in total,
  -- the consumers too, and the observer has ended, which it does only with c_counter at
  -- MAX_PACKETS.
  pub returned-all_done :
      {s : Program}
      → Reach producers consumers s
      → s.main ≡ returned
      → 0 < producers
      → 0 < consumers
      → ((i : ℕ) → i < producers → is_done (s.makers.workers i).pc ≡ true)
        × ((i : ℕ) → i < consumers → is_done (s.takers.workers i).pc ≡ true)
        × (sum_of (λ w. w.rounds) producers s.makers.workers ≡ max_packets)
        × (sum_of (λ w. w.rounds) consumers s.takers.workers ≡ max_packets)
        × (s.observer ≡ ended)
        × (s.queue_returned ≡ true)
        × (max_packets ≤ s.takers.counter)
  returned-all_done {s} r e some_producer some_consumer =
      let v = Reach-Inv producers consumers r in
      let makers = subst (λ p. Makers producers consumers p s.makers) e v.0 in
      let takers = subst (λ p. Takers producers consumers p s.takers) e v.1 in
      let ends : s.observer ≡ ended = v.2.waited (rw e refl) in
      (
        makers.waited,
        takers.waited,
        Crew-rounds makers some_producer,
        Crew-rounds takers some_consumer,
        ends,
        v.3 (rw e refl),
        v.2.enough ends,
      )
