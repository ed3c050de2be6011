-- ===== src/PacketQueue/Produce.antt =====
-- What one call of `create_queue_element` of Praktikum 3/producer.c does to the queue.
use ws2425_bs_praktikum.Base.{
  ℕ, suc, ◌+◌, ◌%◌, ◌<◌, ◌≡◌, ◌≢◌, refl, sym, ◌∙◌, Bool, true, false, ◌||◌, Option, none, some, [],
  ◌∷◌, arith, ◌==◌, if◌then◌else◌, length, inl, inr, Bool-cases,
}
use ws2425_bs_praktikum.Base.Int.{ℤ, pos, negsuc, ltb_ℤ, eqb_ℤ}
use ws2425_bs_praktikum.PacketQueue.Store.{Ptr, null, Store, ok, fault, update}
use ws2425_bs_praktikum.PacketQueue.Operations.{
  queue_head, empty_packet, q_max, add_paket, add_loop, queue_full, already_in_queue,
}
use ws2425_bs_praktikum.PacketQueue.Cells.{
  Cell, Cells, cell, head_cell, first_at, Apart, Foreign, IsQueue, find, insert, ◌<ℤ◌,
}
use ws2425_bs_praktikum.PacketQueue.Add.{IsNew, add_paket-insert, add_paket-loop, has_room}
use ws2425_bs_praktikum.PacketQueue.Duplicate.{add_paket-duplicate}
use ws2425_bs_praktikum.PacketQueue.Consume.{Chain-packets}
use ws2425_bs_praktikum.PacketQueue.Elements.{create_loop, create_queue_element, new_packet, Supply}

-- The cell that the first packet of a supply can become.
abbrev pub first_cell : Supply → Cell
first_cell supply = cell (supply.element_at 0) (supply.packet_at 0) (pos (supply.rand 0 % 100))

-- malloc gave addresses that nothing of the queue uses, for the packet and the element.
pub record IsSupplied (held : Ptr → Bool) (new : Cell) (cs : Cells) : Type 0 where
  pub live : new.at ≢ null
  pub apart : Apart new.at (head_cell ∷ cs)
  pub packet_live : new.packet ≢ null
  pub free : held new.packet ≡ false
  pub foreign : Foreign new.packet (head_cell ∷ cs)

module _ (s : Store) (held : Ptr → Bool) (new : Cell) (cs : Cells) where
  unfoldable pub with_packet : Store
  with_packet = record s {
    packets = update s.packets new.packet (some new.num);
    mutexes = update s.mutexes new.packet false;
  }

  pub packet-IsQueue : IsQueue s held cs → IsSupplied held new cs → IsQueue with_packet held cs
  unfolding with_packet
  packet-IsQueue q n = record {
    chain =
        Chain-packets s with_packet null new.packet (head_cell ∷ cs) (λ a. refl)
          (λ j ne. ground arith) n.foreign q.chain;
    distinct = q.distinct;
    ascending = q.ascending;
    counted = q.counted;
    locks = λ k. ground (arith, q.locks k, n.free);
    unlocked = q.unlocked;
  }

  packet-IsNew : negsuc 0 <ℤ new.num → IsSupplied held new cs → IsNew with_packet held new cs
  unfolding with_packet
  packet-IsNew positive n = record {
    live = n.live;
    apart = n.apart;
    num = ground arith;
    positive = positive;
    free = n.free;
    foreign = n.foreign;
  }

module _ (supply : Supply) (s : Store) (held : Ptr → Bool) (cs : Cells) where
  new_runs :
      supply.packet_at 0 ≢ null
      → new_packet (supply.packet_at 0) (supply.rand 0) s
        ≡ ok tt (with_packet s held (first_cell supply) cs)
  unfolding new_packet with_packet
  new_runs ne = ground arith

  created :
      (fuel : ℕ) (t : Store)
      → supply.packet_at 0 ≢ null
      → add_paket
          (q_max + 2)
          (supply.element_at 0)
          (supply.packet_at 0)
          (with_packet s held (first_cell supply) cs)
        ≡ ok (pos 0) t
      → create_queue_element (suc fuel) supply s ≡ ok tt t
  unfolding create_queue_element create_loop
  created fuel t ne runs = rw (new_runs ne) (rw runs refl)

  tried_again :
      (fuel : ℕ) (t : Store)
      → supply.packet_at 0 ≢ null
      → add_paket
          (q_max + 2)
          (supply.element_at 0)
          (supply.packet_at 0)
          (with_packet s held (first_cell supply) cs)
        ≡ ok (negsuc 0) t
      → t.errno ≡ already_in_queue
      → add_paket (q_max + 2) (supply.element_at 0) (supply.packet_at 0) t ≡ fault
      → create_queue_element (suc (suc fuel)) supply s ≡ fault
  unfolding create_queue_element create_loop
  tried_again fuel t ne runs e again =
      let not_full : (t.errno == queue_full) ≡ false = ground arith in
      rw (new_runs ne) (rw runs (rw not_full (rw again refl)))

  -- With no other thread in the queue, room in it, memory of its own from malloc, and a random
  -- number that is not in the queue: create_queue_element ends after one round of its loop, and a
  -- packet with that number stands in the queue at its place.
  pub create-insert :
      (fuel : ℕ)
      → IsQueue s held cs
      → IsSupplied held (first_cell supply) cs
      → length cs < q_max
      → find (pos (supply.rand 0 % 100)) cs ≡ none
      → (t : Store) × (create_queue_element (suc fuel) supply s ≡ ok tt t)
        × IsQueue t held (insert (first_cell supply) cs)
  create-insert fuel q n room f =
      let new = first_cell supply in
      let (t, runs, queue, packets) =
        add_paket-insert (q_max + 2) (with_packet s held new cs) held new cs
          (packet-IsQueue s held new cs q n) (packet-IsNew s held new cs (ground arith) n) room
          (omega arith) f in
      (t, created fuel t n.packet_live runs, queue)

-- A packet that is gone: the loop of add_paket reads the number of freed memory.
gone_faults :
    (fuel : ℕ) (s : Store) (fresh packet : Ptr)
    → s.packets packet ≡ none
    → add_loop (suc fuel) fresh packet queue_head s ≡ fault
unfolding add_loop
gone_faults fuel s fresh packet e = ground arith

find-other :
    (k : Ptr) (n : ℤ) (cs : Cells) (dup : Ptr) → Foreign k cs → find n cs ≡ some dup → k ≢ dup
find-other k n [] dup f e = absurd (cc)
find-other k n (c ∷ cs) dup (x, xs) e = elim (Bool-cases (eqb_ℤ n c.num)) [
  | inl here ↦ ground arith
  | inr there ↦ find-other k n cs dup xs (ground arith)
]

still_free : (k j : Ptr) (b : Bool) → k ≢ j → b ≡ false → (k == j || b) ≡ false
still_free k j b ne e = ground arith

other_kept :
    (f : Ptr → Option ℤ) (k p : Ptr) (v : ℤ)
    → k ≢ p
    → f k ≡ some v
    → (if k == p then none else f k) ≡ some v
other_kept f k p v ne e = ground arith

itself_gone : (k : Ptr) (o : Option ℤ) → (if k == k then none else o) ≡ none
itself_gone k o = ground arith

-- With no other thread in the queue, room in it, memory of its own from malloc, and a random number
-- that is in the queue already: create_queue_element gives add_paket the packet that add_paket has
-- freed, and add_paket reads it.
pub create-duplicate :
    (fuel : ℕ) (supply : Supply) (s : Store) (held : Ptr → Bool) (cs : Cells) (dup : Ptr)
    → IsQueue s held cs
    → IsSupplied held (first_cell supply) cs
    → length cs < q_max
    → find (pos (supply.rand 0 % 100)) cs ≡ some dup
    → create_queue_element (suc (suc fuel)) supply s ≡ fault
create-duplicate fuel supply s held cs dup q n room f =
    let new = first_cell supply in
    let s1 = with_packet s held new cs in
    let q1 = packet-IsQueue s held new cs q n in
    let (t, runs, r) =
      add_paket-duplicate (q_max + 2) s1 held new cs dup q1
        (packet-IsNew s held new cs (ground arith) n) room (omega arith) f in
    let head = r.elements queue_head ∙ q1.chain.1 in
    let head_num : t.packets empty_packet ≡ some (negsuc 0) =
      r.packets empty_packet
      ∙ other_kept s1.packets empty_packet new.packet (negsuc 0) (λ e. n.foreign.0 (sym e))
          q1.chain.2 in
    let free : t.mutexes empty_packet ≡ false =
      r.locks empty_packet
      ∙ still_free empty_packet dup (held empty_packet)
          (find-other empty_packet new.num cs dup q.distinct.1 f) q.unlocked.0 in
    let room_left : ltb_ℤ t.queue_index (pos q_max) ≡ true =
      has_room t.queue_index (length cs) (r.index ∙ q1.counted) room in
    tried_again supply s held cs fuel t n.packet_live runs r.errno (
      add_paket-loop (q_max + 2) t new.at new.packet (first_at cs) head head_num free room_left
      ∙ gone_faults (q_max + 1) (record t { mutexes = update t.mutexes empty_packet true }) new.at
          new.packet (r.packets new.packet ∙ itself_gone new.packet (s1.packets new.packet)))
