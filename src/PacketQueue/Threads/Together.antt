-- ===== src/PacketQueue/Threads/Together.antt =====
-- What any number of calls of add_paket and get_paket of Praktikum 3/queue.c can rely on that are
-- in the queue at the same time, each run from one pthread_mutex_lock to the next, in any order.
use mathlib.Core.List.{Perm, perm_middle}
use mathlib.Core.List.Perm
use ws2425_bs_praktikum.Base.{ℕ, ◌<◌, Bool, ◌≡◌, ◌≢◌, refl, ◌⊎◌, List, [], ◌∷◌, ◌++◌, if◌then◌else◌}
use ws2425_bs_praktikum.Base.Int.{ℤ, pos, eqb_ℤ}
use ws2425_bs_praktikum.PacketQueue.Store.{Ptr, Store, ok, blocked}
use ws2425_bs_praktikum.PacketQueue.Cells.{Cells, head_cell, IsQueue}
use ws2425_bs_praktikum.PacketQueue.Ordered.{Call, add, get, packets_of, insert-perm}
use ws2425_bs_praktikum.PacketQueue.Threads.Blocks.{Pc, returned, block, System, Log, Reach}
use ws2425_bs_praktikum.PacketQueue.Threads.Place.{
  Answers, put, full, took, empty, Differ, IsLinked,
}
use ws2425_bs_praktikum.PacketQueue.Threads.Measure.{IsRunning}
use ws2425_bs_praktikum.PacketQueue.Threads.Linear.{
  Brings, Applied, nothing, returns, reached, reached-Goes,
}
use ws2425_bs_praktikum.PacketQueue.Threads.Progress.{CanGo, some_goes, quiet-Unlocked}

-- The packets that the calls so far put in, and those that they handed out.
abbrev pub put_by : Call → ℤ → List Ptr → List Ptr
put_by (add new) code l = if eqb_ℤ code (pos 0) then new.packet ∷ l else l
put_by get code l = l

abbrev pub handed_by : Call → ℤ → Ptr → List Ptr → List Ptr
handed_by (add new) code packet l = l
handed_by get code packet l = if eqb_ℤ code (pos 0) then packet ∷ l else l

abbrev pub put_in : (ℕ → Call) → Log → List Ptr
put_in job [] = []
put_in job ((i, code, packet) ∷ log) = put_by (job i) code (put_in job log)

abbrev pub handed_out : (ℕ → Call) → Log → List Ptr
handed_out job [] = []
handed_out job ((i, code, packet) ∷ log) = handed_by (job i) code packet (handed_out job log)

Answers-perm :
    (c : Call) (xs : Cells) (code : ℤ) (packet : Ptr) (ys : Cells) (into out start : List Ptr)
    → Answers c xs (code, packet) ys
    → Perm (into ++ start) (out ++ packets_of xs)
    → Perm (put_by c code into ++ start) (handed_by c code packet out ++ packets_of ys)
Answers-perm _ xs _ _ _ into out start (put {new = new}) h = Perm.trans (Perm.cons new.packet h) (
    Perm.trans (Perm.symm (perm_middle out (packets_of xs)))
      (Perm.append_left out (Perm.symm (insert-perm new xs))))
Answers-perm _ xs _ _ _ into out start (full more) h = h
Answers-perm _ _ _ _ ys into out start (took {c = c}) h =
    Perm.trans h (perm_middle out (packets_of ys))
Answers-perm _ _ _ _ _ into out start empty h = h

Applied-perm :
    (job : ℕ → Call) (cs : Cells) (log : Log) (xs : Cells)
    → Applied job cs log xs
    → Perm (put_in job log ++ packets_of cs) (handed_out job log ++ packets_of xs)
Applied-perm job cs _ _ nothing = Perm.rfl
Applied-perm job cs _ _
      (returns {log = log} {xs = xs} {ys = ys} a i {code = code} {packet = packet} told) =
    Answers-perm (job i) xs code packet ys (put_in job log) (handed_out job log) (packets_of cs)
      told (Applied-perm job cs log xs a)

module _ (n : ℕ) (job : ℕ → Call) (s : Store) (held : Ptr → Bool) (cs : Cells)
    (queue : IsQueue s held cs) (brings : (i : ℕ) → i < n → Brings (job i) cs s)
    (differ : (i j : ℕ) → i < n → j < n → i ≢ j → Differ (job i) (job j)) (y : System) (log : Log)
    (r : Reach n job s y log) where
  -- Any number of calls of add_paket and get_paket in a queue that nobody was in, each with a
  -- packet, a number not below 0 and memory of its own that are not in the queue, which run from
  -- one pthread_mutex_lock to the next in any order: at each moment the memory holds a list of
  -- packets, linked both ways, ascending and counted, and it is the one that the calls that have
  -- returned make of the first list, each taken as one step in the order of the returns: a 0 of
  -- add_paket puts its packet in at its place, its -1 comes of a list of QMAX packets or more, a 0
  -- of get_paket takes the first packet, its -1 comes of the empty list. No packet is lost or
  -- doubled: those of the first list and those put in are those handed out and those in the list.
  pub threads-Applied :
      (xs : Cells) × Applied job cs log xs
      × IsLinked y.store xs
      × Perm (put_in job log ++ packets_of cs) (handed_out job log ++ packets_of xs)
  threads-Applied =
      let (xs, applied, inv) = reached n job s held cs queue brings differ y log r in
      (xs, applied, inv.linked, Applied-perm job cs log xs applied)

  -- Any number of calls of add_paket and get_paket in a queue that nobody was in, each with a
  -- packet, a number not below 0 and memory of its own that are not in the queue, which run from
  -- one pthread_mutex_lock to the next in any order: at each moment the next move of each of them
  -- ends, or the call has to wait for a mutex or has returned. None uses a pointer to nothing,
  -- whatever the others did.
  pub threads-ok :
      (i : ℕ)
      → i < n
      → (block (job i) (y.pc i) y.store ≡ blocked)
        ⊎ ((p : Pc) × (t : Store) × (block (job i) (y.pc i) y.store ≡ ok p t))
  threads-ok = reached-Goes n job s held cs queue brings differ y log r

  -- Any number of calls of add_paket and get_paket in a queue that nobody was in, each with a
  -- packet, a number not below 0 and memory of its own that are not in the queue, which run from
  -- one pthread_mutex_lock to the next in any order: while one of them has not returned, there is
  -- one that can move. They never all wait for each other.
  pub threads-CanGo : (i : ℕ) → i < n → IsRunning (y.pc i) → (j : ℕ) × (j < n) × CanGo job y j
  threads-CanGo i lt on =
      let (xs, _, inv) = reached n job s held cs queue brings differ y log r in
      some_goes n job y xs inv i lt on

  -- Any number of calls of add_paket and get_paket in a queue that nobody was in, each with a
  -- packet, a number not below 0 and memory of its own that are not in the queue, which run from
  -- one pthread_mutex_lock to the next in any order: once all have returned, the memory is a queue
  -- that no thread is in, with no mutex of it held, and it holds the list that the calls make of
  -- the first one, each taken as one step in the order of the returns.
  pub returned-IsQueue :
      ((i : ℕ) → i < n → (a : ℤ × Ptr) × (y.pc i ≡ returned a))
      → (xs : Cells) × IsQueue y.store y.store.mutexes xs × Applied job cs log xs
  returned-IsQueue quiet =
      let (xs, applied, inv) = reached n job s held cs queue brings differ y log r in
      let (chain, distinct, ascending, counted) = inv.linked in
      (
        xs,
        record {
          chain = chain;
          distinct = distinct;
          ascending = ascending;
          counted = counted;
          locks = λ k. refl;
          unlocked = quiet-Unlocked n job y xs inv quiet (head_cell ∷ xs) (λ x m. m);
        },
        applied,
      )
