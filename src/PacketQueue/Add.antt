-- ===== src/PacketQueue/Add.antt =====
-- `add_paket` of Praktikum 3/queue.c on a queue that no other thread is in.
use ws2425_bs_praktikum.Base.{
  ℕ, zero, suc, ◌<◌, ◌≡◌, ◌≢◌, refl, sym, ◌∙◌, Bool, true, false, none, some, [], ◌∷◌, arith,
  length,
}
use ws2425_bs_praktikum.Base.Int.{ℤ, pos, negsuc, ◌+ℤ◌, ltb_ℤ}
use ws2425_bs_praktikum.PacketQueue.Store.{Ptr, null, element, Store, ok, update}
use ws2425_bs_praktikum.PacketQueue.Operations.{
  queue_head, empty_packet, q_max, add_loop, add_paket,
}
use ws2425_bs_praktikum.PacketQueue.Cells.{
  Cell, Cells, head_cell, first_at, Apart, Foreign, IsQueue, Chain-frame, find, insert, ◌<ℤ◌,
}
use ws2425_bs_praktikum.PacketQueue.Insert.{
  Distinct-insert, Unlocked-insert, Above-insert, Ascending-insert, Apart-insert, Foreign-insert,
  length-insert,
}
use ws2425_bs_praktikum.PacketQueue.Walk.{Before, Walk, Fresh, Inserted}
use ws2425_bs_praktikum.PacketQueue.Place.{add_loop-Inserted}

-- The packet is not in the queue, its number is not negative, and malloc gave an address of its
-- own.
pub record IsNew (s : Store) (held : Ptr → Bool) (new : Cell) (cs : Cells) : Type 0 where
  pub live : new.at ≢ null
  pub apart : Apart new.at (head_cell ∷ cs)
  pub num : s.packets new.packet ≡ some new.num
  pub positive : negsuc 0 <ℤ new.num
  pub free : held new.packet ≡ false
  pub foreign : Foreign new.packet (head_cell ∷ cs)

abbrev pub before_first : Before
before_first = record { at = queue_head; packet = empty_packet; prev = null; num = negsuc 0 }

succ_pos : (m : ℕ) → pos m +ℤ pos 1 ≡ pos (suc m)
unfolding ◌+ℤ◌
succ_pos m = ground arith

pub update-other : (f : Ptr → Bool) (p : Ptr) (a : Bool) (k : Ptr) → k ≢ p → update f p a k ≡ f k
update-other f p a k h = ground arith

pub has_room : (i : ℤ) (m : ℕ) → i ≡ pos m → m < q_max → ltb_ℤ i (pos q_max) ≡ true
has_room i m e h = ground arith

-- From the start of add_paket to its loop, with the mutex of the head held.
pub add_paket-loop :
    (fuel : ℕ) (s : Store) (fresh packet first : Ptr)
    → s.elements queue_head ≡ some (element empty_packet first null)
    → s.packets empty_packet ≡ some (negsuc 0)
    → s.mutexes empty_packet ≡ false
    → ltb_ℤ s.queue_index (pos q_max) ≡ true
    → add_paket fuel fresh packet s
      ≡ add_loop fuel fresh packet queue_head
          (record s { mutexes = update s.mutexes empty_packet true })
unfolding add_paket
add_paket-loop fuel s fresh packet first e p m i = ground arith

-- The first round of the loop, from the head to the first element.
head_step :
    (fuel : ℕ) (s : Store) (new c : Cell) (second : Ptr)
    → negsuc 0 <ℤ new.num
    → s.packets new.packet ≡ some new.num
    → s.elements queue_head ≡ some (element empty_packet c.at null)
    → s.packets empty_packet ≡ some (negsuc 0)
    → c.at ≢ null
    → s.elements c.at ≡ some (element c.packet second queue_head)
    → s.packets c.packet ≡ some c.num
    → s.mutexes c.packet ≡ false
    → add_loop (suc fuel) new.at new.packet queue_head s
      ≡ add_loop fuel new.at new.packet c.at (record s { mutexes = update s.mutexes c.packet true })
unfolding add_loop
head_step fuel s new c second above num head head_num live first first_num open_lock = ground arith

module _ (s : Store) (held : Ptr → Bool) (new : Cell) where
  -- The queue is empty: the packet goes behind the head.
  store_alone : Store
  store_alone = record s {
    elements =
        update (update s.elements new.at (some (element new.packet null queue_head))) queue_head
          (some (element empty_packet new.at null));
    mutexes = update (update s.mutexes empty_packet true) empty_packet false;
    queue_index = s.queue_index +ℤ pos 1;
  }

  alone_runs :
      (fuel : ℕ)
      → IsQueue s held []
      → IsNew s held new []
      → add_paket (suc fuel) new.at new.packet s ≡ ok (pos 0) store_alone
  unfolding add_paket add_loop store_alone
  alone_runs fuel q n = ground (arith, q.locks 1)

  alone-IsQueue : IsQueue s held [] → IsNew s held new [] → IsQueue store_alone held (new ∷ [])
  unfolding store_alone ◌+ℤ◌
  alone-IsQueue q n = record {
    chain = (q.chain.0, ground arith, q.chain.2, (n.live, ground arith, n.num, tt));
    distinct = ground arith;
    ascending = ground arith;
    counted = ground arith;
    locks = λ k. ground (arith, q.locks 1, q.locks k);
    unlocked = ground arith;
  }

  module _ (c : Cell) (cs : Cells) where
    -- The walk has left the head for the first element.
    unfoldable pub store_first : Store
    store_first = record s { mutexes = update (update s.mutexes empty_packet true) c.packet true }

    pub first_runs :
        (fuel : ℕ)
        → IsQueue s held (c ∷ cs)
        → IsNew s held new (c ∷ cs)
        → length (c ∷ cs) < q_max
        → add_paket (suc fuel) new.at new.packet s
          ≡ add_loop fuel new.at new.packet c.at store_first
    unfolding store_first
    first_runs fuel q n room =
        let open_lock : s.mutexes 1 ≡ false = q.locks 1 ∙ q.unlocked.0 in
        let other =
          update-other s.mutexes 1 true c.packet (λ e. q.distinct.1.0 (sym e))
          ∙ (q.locks c.packet ∙ q.unlocked.1.0) in
        add_paket-loop (suc fuel) s new.at new.packet c.at q.chain.1 q.chain.2 open_lock
          (has_room s.queue_index (length (c ∷ cs)) q.counted room)
        ∙ head_step fuel (record s { mutexes = update s.mutexes empty_packet true }) new c
            (first_at cs) n.positive n.num q.chain.1 q.chain.2 q.chain.3.0 q.chain.3.1 q.chain.3.2
            other

    pub first_Walk : IsQueue s held (c ∷ cs) → Walk store_first held before_first c cs
    unfolding store_first
    first_Walk q = record {
      live = q.chain.0;
      link = q.chain.1;
      num = q.chain.2;
      chain =
          Chain-frame s store_first 1 1 1 1 (c ∷ cs) (λ a x y z. refl) (λ k. refl) q.distinct.0
            q.distinct.0 q.distinct.0 q.chain.3;
      locks = λ k. ground (arith, q.locks k);
      free = q.unlocked.0;
      unlocked = q.unlocked.1;
      apart = q.distinct.0;
      foreign = q.distinct.1;
      distinct = q.distinct.2;
    }

    pub first_Fresh : IsNew s held new (c ∷ cs) → Fresh store_first new before_first (c ∷ cs)
    unfolding store_first
    first_Fresh n = record { live = n.live; other = n.apart.0; apart = n.apart.1; num = n.num }

    Inserted-IsQueue :
        (t : Store)
        → IsQueue s held (c ∷ cs)
        → IsNew s held new (c ∷ cs)
        → find new.num (c ∷ cs) ≡ none
        → Inserted store_first t held new before_first (c ∷ cs)
        → IsQueue t held (insert new (c ∷ cs))
    unfolding store_first
    Inserted-IsQueue t q n none_yet i =
        let all = c ∷ cs in
        record {
          chain = (q.chain.0, i.link, i.packets 1 ∙ q.chain.2, i.chain);
          distinct = (
            Apart-insert 1 new all (λ e. n.apart.0 (sym e)) q.distinct.0,
            Foreign-insert 1 new all (λ e. n.foreign.0 (sym e)) q.distinct.1,
            Distinct-insert new all n.apart.1 n.foreign.1 q.distinct.2,
          );
          ascending = (
            Above-insert (negsuc 0) new all n.positive q.ascending.0,
            Ascending-insert new all none_yet q.ascending.1,
          );
          counted = i.index ∙ rw (q.counted, succ_pos, length-insert new all) refl;
          locks = i.locks;
          unlocked = (q.unlocked.0, Unlocked-insert held new all n.free q.unlocked.1);
        }

-- With no other thread in the queue, a packet of its own with a number that is not negative and not
-- in the queue, while there is room: add_paket returns 0 without blocking, given a round of the
-- loop for each cell and the head, and the packet stands in the queue at its place. The result is a
-- queue again: linked both ways, ascending, counted, with no mutex of the queue held. No packet
-- changes.
pub add_paket-insert :
    (fuel : ℕ) (s : Store) (held : Ptr → Bool) (new : Cell) (cs : Cells)
    → IsQueue s held cs
    → IsNew s held new cs
    → length cs < q_max
    → length cs < fuel
    → find new.num cs ≡ none
    → (t : Store) × (add_paket fuel new.at new.packet s ≡ ok (pos 0) t)
      × IsQueue t held (insert new cs)
      × ((k : Ptr) → t.packets k ≡ s.packets k)
unfolding store_alone store_first
add_paket-insert zero s held new cs q n room enough f = absurd (omega arith)
add_paket-insert (suc fuel) s held new [] q n room enough f = (
  store_alone s held new,
  alone_runs s held new fuel q n,
  alone-IsQueue s held new q n,
  λ k. refl,
)
add_paket-insert (suc fuel) s held new (c ∷ cs) q n room enough f =
    let (t, runs, i) =
      add_loop-Inserted fuel (store_first s held new c cs) held new before_first c cs (omega arith)
        (first_Walk s held new c cs q) (first_Fresh s held new c cs n) f in
    (
      t,
      first_runs s held new c cs fuel q n room ∙ runs,
      Inserted-IsQueue s held new c cs t q n f i,
      i.packets,
    )
