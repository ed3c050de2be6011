-- ===== src/PacketQueue/Threads/Ends.antt =====
-- The number of moves that calls of Praktikum 3/queue.c make at the same time.
use ws2425_bs_praktikum.Base.{
  ℕ, suc, ◌+◌, ◌*◌, ◌≤◌, ◌<◌, ◌≡◌, ◌≢◌, refl, inl, inr, Bool, true, arith, ◌==◌, length,
}
use ws2425_bs_praktikum.Base.Threads.{put_at, sum_of, sum_of-most, sum_of-less, sum_of-swap}
use ws2425_bs_praktikum.PacketQueue.Store.{Ptr, Store, ok}
use ws2425_bs_praktikum.PacketQueue.Cells.{Cells, IsQueue}
use ws2425_bs_praktikum.PacketQueue.Ordered.{Call}
use ws2425_bs_praktikum.PacketQueue.Threads.Blocks.{
  Pc, entering, returned, block, System, Log, Reach, start, later,
}
use ws2425_bs_praktikum.PacketQueue.Threads.Measure.{IsRunning, todo, todo-IsRunning}
use ws2425_bs_praktikum.PacketQueue.Threads.Place.{Differ, Moves}
use ws2425_bs_praktikum.PacketQueue.Threads.Others.{
  counts, counts-le, counts-same, fewer, Told-todo,
}
use ws2425_bs_praktikum.PacketQueue.Threads.Inv.{Inv}
use ws2425_bs_praktikum.PacketQueue.Threads.Keep.{Inv-kept}
use ws2425_bs_praktikum.PacketQueue.Threads.Linear.{
  Brings, IsRunning-or, returned-blocked, start-Inv, move,
}

-- How many moves the calls have made.
unfoldable pub moves_of :
    {n : ℕ} {job : ℕ → Call} {s : Store} {y : System} {log : Log} → Reach n job s y log → ℕ
moves_of start = 0
moves_of (later r i lt e) = suc (moves_of r)

self : (i : ℕ) → (i == i) ≡ true
self i = ground arith

module _ (n : ℕ) (job : ℕ → Call) where
  adders : (ℕ → Pc) → ℕ
  adders pc = sum_of (λ x. x) n (λ j. counts (job j) (pc j))

  total : (ℕ → Pc) → Cells → ℕ
  unfolding adders
  total pc xs = sum_of (λ x. x) n (λ j. todo (adders pc) xs (pc j))

  total_start : (xs : Cells) → total (λ _. entering) xs ≤ n * (length xs + n + 4)
  unfolding total adders
  total_start xs =
      let most =
        sum_of-most n 1 (λ j. counts (job j) entering) (λ j lt. counts-le (job j) entering) in
      sum_of-most n (length xs + n + 4)
        (λ j. todo (sum_of (λ x. x) n (λ i. counts (job i) entering)) xs entering)
        (λ j lt. omega arith)

  module _ (y : System) (xs ys : Cells) (inv : Inv n job y xs) (i : ℕ) (lt : i < n) (p : Pc)
      (t : Store) (on : IsRunning (y.pc i)) (m : Moves (job i) (y.pc i) p y.store t xs ys) where
    adders_change :
        counts (job i) (y.pc i) + adders (put_at y.pc i p) ≡ adders y.pc + counts (job i) p
    unfolding adders
    adders_change =
        let e =
          sum_of-swap n (λ j. counts (job j) (put_at y.pc i p j)) (λ j. counts (job j) (y.pc j)) i
            (λ j small other. rw other refl) lt in
        let here : counts (job i) (put_at y.pc i p i) ≡ counts (job i) p = rw (self i) refl in
        omega arith

    mover_todo : todo (adders (put_at y.pc i p)) ys p < todo (adders y.pc) xs (y.pc i)
    mover_todo = elim (IsRunning-or p) [
      | inr (a, e) ↦ rw e (todo-IsRunning (adders y.pc) xs (y.pc i) on)
      | inl on' ↦
          let after = adders (put_at y.pc i p) in
          let same = counts-same (job i) (y.pc i) p on on' in
          let change = adders_change in
          let less = m.onward on' after in
          let last = fewer after (adders y.pc) xs (y.pc i) (omega arith) in omega arith
    ]

    total-less : total (put_at y.pc i p) ys < total y.pc xs
    unfolding total
    total-less =
        sum_of-less n (λ j. todo (adders (put_at y.pc i p)) ys (put_at y.pc i p j))
          (λ j. todo (adders y.pc) xs (y.pc j)) i
          (λ j small other. rw other (
            Told-todo (job i) (y.pc i) xs ys y.store (job j) (y.pc j) (adders (put_at y.pc i p))
              (adders y.pc) on (inv.place i lt) (inv.place j small) p m.told
              (let change = adders_change in omega arith)))
          lt (rw (self i) mover_todo)

module _ (n : ℕ) (job : ℕ → Call) (s : Store) (held : Ptr → Bool) (cs : Cells)
    (queue : IsQueue s held cs) (brings : (i : ℕ) → i < n → Brings (job i) cs s)
    (differ : (i j : ℕ) → i < n → j < n → i ≢ j → Differ (job i) (job j)) where
  moved_IsRunning : (i : ℕ) (p0 p : Pc) (u t : Store) → block (job i) p0 u ≡ ok p t → IsRunning p0
  moved_IsRunning i p0 p u t e = elim (IsRunning-or p0) [
    | inl on ↦ on
    | inr (a, done) ↦
        let stopped = returned-blocked (job i) a u in
        let e' : block (job i) (returned a) u ≡ ok p t = rw done at e in absurd (cc)
  ]

  spent :
      (y : System) (log : Log) (r : Reach n job s y log)
      → (xs : Cells) × Inv n job y xs × (moves_of r + total n job y.pc xs ≤ n * (length cs + n + 4))
  unfolding moves_of
  spent _ _ start = (
    cs,
    start-Inv n job s held cs queue brings differ,
    let all = total_start n job cs in omega arith,
  )
  spent _ _ (later {y = y} {log = log} r i {p = p} {t = t} lt e) =
      let (xs, inv, bound) = spent y log r in
      let (ys, m) = move n job s held cs queue brings differ y xs i p t inv lt e in
      let on = moved_IsRunning i (y.pc i) p y.store t e in
      let less = total-less n job y xs ys inv i lt p t on m in
      (ys, Inv-kept n job differ y xs ys inv i lt p t m, omega arith)

  -- Any number n of calls of add_paket and get_paket in a queue that nobody was in, each with a
  -- packet, a number not below 0 and memory of its own that are not in the queue, which run from
  -- one pthread_mutex_lock to the next in any order: together they make at most n * (l + n + 4)
  -- such moves, where l is the number of packets that were in the queue. No loop of add_paket runs
  -- on for ever behind packets that others put in.
  pub moves_of-le :
      {y : System} {log : Log} (r : Reach n job s y log) → moves_of r ≤ n * (length cs + n + 4)
  moves_of-le {y} {log} r = let (xs, _, bound) = spent y log r in omega arith
