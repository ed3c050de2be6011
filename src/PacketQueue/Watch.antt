-- ===== src/PacketQueue/Watch.antt =====
-- What `print_queue_status` of Praktikum 3/observer.c prints, and what it leaves.
use ws2425_bs_praktikum.Base.{
  ℕ, zero, suc, ◌+◌, ◌<◌, ◌≡◌, refl, ap, ◌∙◌, Bool, true, false, ◌||◌, ◌&&◌, [], ◌∷◌, arith, ◌==◌,
  if◌then◌else◌, length,
}
use ws2425_bs_praktikum.Base.Int.{negsuc}
use ws2425_bs_praktikum.PacketQueue.Store.{Ptr, null, Store, ok, and_then, update}
use ws2425_bs_praktikum.PacketQueue.Operations.{queue_head, empty_packet}
use ws2425_bs_praktikum.PacketQueue.Consume.{Chain-packets}
use ws2425_bs_praktikum.PacketQueue.Cells.{
  Cell, Cells, head_cell, Chain, Distinct, Unlocked, IsQueue,
}
use ws2425_bs_praktikum.PacketQueue.Observer.{
  line, print_loop, print_queue_status, lines_of, ahead, step_store, Opens, step_runs, last_runs,
}

-- What the walk leaves: no mutex but the ones that were held before it, at most one unlock too
-- many.
abbrev after_walk : Store → Bool → (Ptr → Bool) → Store
after_walk s b m = record s { mutexes = m; misuse = if b then s.misuse else suc s.misuse }

abbrev Locks : Store → (Ptr → Bool) → Bool → Cell → Cells → Type 0
Locks s held b c cs = (k : Ptr) → s.mutexes k ≡ ((b && k == c.packet) || (ahead cs k || held k))

module _ (s : Store) (held : Ptr → Bool) (b : Bool) (c d : Cell) where
  Locks-step :
      (ds : Cells)
      → Distinct (c ∷ d ∷ ds)
      → Unlocked held (c ∷ d ∷ ds)
      → Locks s held b c (d ∷ ds)
      → Locks (step_store s c b ds) held true d ds
  Locks-step [] distinct u locks k = ground (arith, locks k, locks c.packet)
  Locks-step (e ∷ es) distinct u locks k = ground (arith, locks k, locks c.packet)

  Opens-step :
      (ds : Cells)
      → Distinct (c ∷ d ∷ ds)
      → Unlocked held (c ∷ d ∷ ds)
      → Locks s held b c (d ∷ ds)
      → Opens s c ds
  Opens-step [] distinct u locks = tt
  Opens-step (e ∷ es) distinct u locks = ground (arith, locks e.packet)

own_lock :
    (s : Store) (held : Ptr → Bool) (b : Bool) (c : Cell) (cs : Cells)
    → Distinct (c ∷ cs)
    → Unlocked held (c ∷ cs)
    → Locks s held b c cs
    → s.mutexes c.packet ≡ b
own_lock s held b c [] distinct u locks = ground (arith, locks c.packet)
own_lock s held b c (d ∷ ds) distinct u locks = ground (arith, locks c.packet)

walk :
    (fuel i : ℕ) (b : Bool) (s : Store) (held : Ptr → Bool) (prev : Ptr) (c : Cell) (cs : Cells)
    → length cs < fuel
    → Chain s prev (c ∷ cs)
    → Distinct (c ∷ cs)
    → Unlocked held (c ∷ cs)
    → Locks s held b c cs
    → (m : Ptr → Bool) × (print_loop fuel i c.at s ≡ ok (lines_of i (c ∷ cs)) (after_walk s b m))
      × ((k : Ptr) → m k ≡ held k)
walk zero i b s held prev c cs enough chain distinct u locks = absurd (omega arith)
walk (suc fuel) i b s held prev c [] enough chain distinct u locks = (
  (step_store s c b []).mutexes,
  last_runs s c fuel i b prev chain (own_lock s held b c [] distinct u locks),
  λ k. ground (arith, locks k, locks c.packet),
)
walk (suc fuel) i b s held prev c (d ∷ ds) enough chain distinct u locks =
    let own = own_lock s held b c (d ∷ ds) distinct u locks in
    let next_chain : Chain (step_store s c b ds) c.at (d ∷ ds) =
      Chain-packets s (step_store s c b ds) c.at c.packet (d ∷ ds) (λ a. refl) (λ k ne. refl)
        distinct.1 chain.3 in
    let (m, runs, same) =
      walk fuel (i + 1) true (step_store s c b ds) held c.at d ds (omega arith) next_chain
        distinct.2 u.1 (Locks-step s held b c d ds distinct u locks) in
    (
      m,
      step_runs s c fuel i b prev d ds chain own (Opens-step s held b c d ds distinct u locks)
          ∙ ap (λ r. and_then r (λ lines t. ok (line i c.num ∷ lines) t)) runs,
      same,
    )

module _ (s : Store) (held : Ptr → Bool) where
  head_locked : Store
  head_locked = record s { mutexes = update s.mutexes empty_packet true }

  starts :
      (fuel : ℕ) (cs : Cells)
      → IsQueue s held cs
      → print_queue_status fuel s ≡ print_loop fuel 0 queue_head head_locked
  unfolding print_queue_status head_locked
  starts fuel cs q = ground (arith, q.chain.1, q.chain.2, q.locks 1, q.unlocked.0)

  first_Locks :
      (c : Cell) (cs : Cells)
      → IsQueue s held (c ∷ cs)
      → Locks (step_store head_locked head_cell true cs) held false c cs
  unfolding head_locked
  first_Locks c [] q k = ground (arith, q.locks k, q.unlocked.0)
  first_Locks c (e ∷ es) q k = ground (arith, q.locks k, q.unlocked.0)

  first-Opens : (c : Cell) (cs : Cells) → IsQueue s held (c ∷ cs) → Opens head_locked head_cell cs
  unfolding head_locked
  first-Opens c [] q = tt
  first-Opens c (e ∷ es) q = ground (arith, q.locks e.packet, q.unlocked.1.1.0, q.distinct.1.1.0)

  IsQueue-after :
      (cs : Cells) (m : Ptr → Bool) (n : ℕ)
      → IsQueue s held cs
      → ((k : Ptr) → m k ≡ held k)
      → IsQueue (record s { mutexes = m; misuse = n }) held cs
  IsQueue-after cs m n q same = record {
    chain = (
      q.chain.0,
      q.chain.1,
      q.chain.2,
      Chain-packets s (record s { mutexes = m; misuse = n }) queue_head empty_packet cs (λ a. refl)
          (λ k ne. refl) q.distinct.1 q.chain.3,
    );
    distinct = q.distinct;
    ascending = q.ascending;
    counted = q.counted;
    locks = same;
    unlocked = q.unlocked;
  }

  -- On a queue that no other thread is in print_queue_status, given a round of its loop for each
  -- cell and the head, does not block; it prints the head's number and those of the cells in their
  -- order, numbered from 0, and leaves the queue with no mutex held. But if there is a cell it
  -- unlocks one mutex that is not held.
  pub print-lines :
      (fuel : ℕ) (cs : Cells)
      → IsQueue s held cs
      → length cs < fuel
      → (t : Store) × (print_queue_status fuel s ≡ ok (lines_of 0 (head_cell ∷ cs)) t)
        × IsQueue t held cs
        × (t.misuse ≡ (if length cs == 0 then s.misuse else suc s.misuse))
  unfolding head_locked
  print-lines zero cs q enough = absurd (omega arith)
  print-lines (suc fuel) [] q enough =
      let m = update (update s.mutexes empty_packet true) empty_packet false in
      (
        record s { mutexes = m },
        starts (suc fuel) [] q ∙ last_runs head_locked head_cell fuel 0 true null q.chain refl,
        IsQueue-after [] m s.misuse q (λ k. ground (arith, q.locks k, q.unlocked.0)),
        refl,
      )
  print-lines (suc fuel) (c ∷ cs) q enough =
      let s1 = step_store head_locked head_cell true cs in
      let chain : Chain s1 queue_head (c ∷ cs) =
        Chain-packets s s1 queue_head empty_packet (c ∷ cs) (λ a. refl) (λ k ne. refl) q.distinct.1
          q.chain.3 in
      let chain0 : Chain head_locked null (head_cell ∷ c ∷ cs) = (
        q.chain.0,
        q.chain.1,
        q.chain.2,
        Chain-packets s head_locked queue_head empty_packet (c ∷ cs) (λ a. refl) (λ k ne. refl)
            q.distinct.1 q.chain.3,
      ) in
      let (m, runs, same) =
        walk fuel 1 false s1 held queue_head c cs (omega arith) chain q.distinct.2 q.unlocked.1
          (first_Locks c cs q) in
      (
        record s { mutexes = m; misuse = suc s.misuse },
        starts (suc fuel) (c ∷ cs) q
            ∙ (step_runs head_locked head_cell fuel 0 true null c cs chain0 refl
                  (first-Opens c cs q)
                ∙ ap (λ r. and_then r (λ lines t. ok (line 0 (negsuc 0) ∷ lines) t)) runs),
        IsQueue-after (c ∷ cs) m (suc s.misuse) q same,
        ground arith,
      )
