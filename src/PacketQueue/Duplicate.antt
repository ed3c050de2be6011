-- ===== src/PacketQueue/Duplicate.antt =====
-- What `add_paket` of Praktikum 3/queue.c does with a number that the queue holds already, and what
-- becomes of the queue then.
use ws2425_bs_praktikum.Base.{
  ℕ, zero, suc, ◌<◌, ◌≡◌, ◌≢◌, refl, sym, ◌∙◌, Bool, true, false, ◌||◌, Option, none, some, [], ◌∷◌,
  arith, ◌==◌, if◌then◌else◌, length,
}
use ws2425_bs_praktikum.Base.Int.{ℤ, pos, negsuc, ltb_ℤ, eqb_ℤ}
use ws2425_bs_praktikum.PacketQueue.Store.{Ptr, null, element, Store, ok, blocked, update}
use ws2425_bs_praktikum.PacketQueue.Operations.{
  queue_head, empty_packet, q_max, add_loop, add_paket, get_paket,
}
use ws2425_bs_praktikum.PacketQueue.Cells.{Cell, Cells, first_at, IsQueue, find, ◌<ℤ◌}
use ws2425_bs_praktikum.PacketQueue.Reject.{Rejected, Separate, add_loop-Rejected}
use ws2425_bs_praktikum.PacketQueue.Add.{
  IsNew, store_first, first_runs, first_Walk, first_Fresh, before_first, update-other, has_room,
  add_paket-loop,
}

module _ (s : Store) (held : Ptr → Bool) (new : Cell) (c : Cell) (cs : Cells) where
  first_Separate : IsNew s held new (c ∷ cs) → Separate held new.packet before_first (c ∷ cs)
  first_Separate n = record { free = n.free; other = n.foreign.0; foreign = n.foreign.1 }

  first_Rejected :
      (t : Store) (dup : Ptr)
      → Rejected (store_first s held new c cs) t held new.packet dup
      → Rejected s t held new.packet dup
  unfolding store_first
  first_Rejected t dup r = record {
    elements = r.elements;
    packets = r.packets;
    locks = r.locks;
    index = r.index;
    errno = r.errno;
    misuse = r.misuse;
  }

-- With no other thread in the queue, a packet of its own whose number is in the queue, while there
-- is room: add_paket, given a round of the loop for each cell and the head, returns -1 with errno
-- ALREADY_IN_QUEUE, frees the packet, and leaves the elements and queue_index as they are. But it
-- leaves the mutex of the equal packet in the queue held, and unlocks one mutex that is not held.
pub add_paket-duplicate :
    (fuel : ℕ) (s : Store) (held : Ptr → Bool) (new : Cell) (cs : Cells) (dup : Ptr)
    → IsQueue s held cs
    → IsNew s held new cs
    → length cs < q_max
    → length cs < fuel
    → find new.num cs ≡ some dup
    → (t : Store) × (add_paket fuel new.at new.packet s ≡ ok (negsuc 0) t)
      × Rejected s t held new.packet dup
add_paket-duplicate zero s held new cs dup q n room enough f = absurd (omega arith)
add_paket-duplicate (suc fuel) s held new [] dup q n room enough f = absurd (cc)
add_paket-duplicate (suc fuel) s held new (c ∷ cs) dup q n room enough f =
    let (t, runs, r) =
      add_loop-Rejected fuel (store_first s held new c cs) held new before_first c cs dup
        (omega arith) (first_Walk s held new c cs q) (first_Fresh s held new c cs n)
        (first_Separate s held new c cs n) q.ascending.1 f in
    (t, first_runs s held new c cs fuel q n room ∙ runs, first_Rejected s held new c cs t dup r)

-- The first packet's mutex is held: whoever comes to it waits.
get_blocked :
    (s : Store) (c : Cell) (second : Ptr)
    → s.elements queue_head ≡ some (element empty_packet c.at null)
    → s.packets empty_packet ≡ some (negsuc 0)
    → s.mutexes empty_packet ≡ false
    → c.at ≢ null
    → s.elements c.at ≡ some (element c.packet second queue_head)
    → s.packets c.packet ≡ some c.num
    → s.mutexes c.packet ≡ true
    → get_paket s ≡ blocked
unfolding get_paket
get_blocked s c second a b d e f g h = ground arith

head_blocked :
    (fuel : ℕ) (s : Store) (new c : Cell) (second : Ptr)
    → negsuc 0 <ℤ new.num
    → s.packets new.packet ≡ some new.num
    → s.elements queue_head ≡ some (element empty_packet c.at null)
    → s.packets empty_packet ≡ some (negsuc 0)
    → c.at ≢ null
    → s.elements c.at ≡ some (element c.packet second queue_head)
    → s.packets c.packet ≡ some c.num
    → s.mutexes c.packet ≡ true
    → add_loop (suc fuel) new.at new.packet queue_head s ≡ blocked
unfolding add_loop
head_blocked fuel s new c second above num head head_num live first first_num held = ground arith

-- With no other thread in the queue, while there is room: after an add_paket of a packet of its own
-- with the number of the first packet, which returns -1, the queue is dead: get_paket, and
-- add_paket of any other packet that is there and has a number that is not negative, wait for ever.
pub duplicate_blocks :
    (fuel later_fuel : ℕ) (s : Store) (held : Ptr → Bool) (new later c : Cell) (cs : Cells)
    → IsQueue s held (c ∷ cs)
    → IsNew s held new (c ∷ cs)
    → length (c ∷ cs) < q_max
    → length (c ∷ cs) < fuel
    → eqb_ℤ new.num c.num ≡ true
    → s.packets later.packet ≡ some later.num
    → later.packet ≢ new.packet
    → negsuc 0 <ℤ later.num
    → (t : Store) × (add_paket fuel new.at new.packet s ≡ ok (negsuc 0) t)
      × (get_paket t ≡ blocked)
      × (add_paket (suc later_fuel) later.at later.packet t ≡ blocked)
duplicate_blocks fuel later_fuel s held new later c cs q n room enough same there other above =
    let found : find new.num (c ∷ cs) ≡ some c.packet = rw same refl in
    let (t, runs, r) =
      add_paket-duplicate fuel s held new (c ∷ cs) c.packet q n room enough found in
    let kept = λ (k : Ptr) (v : ℤ) (e : s.packets k ≡ some v) (ne : k ≢ new.packet).
      r.packets k ∙ packet_kept s.packets k new.packet v ne e in
    let head = r.elements queue_head ∙ q.chain.1 in
    let head_num = kept empty_packet (negsuc 0) q.chain.2 (λ e. n.foreign.0 (sym e)) in
    let first = r.elements c.at ∙ q.chain.3.1 in
    let first_num = kept c.packet c.num q.chain.3.2 (λ e. n.foreign.1.0 (sym e)) in
    let room_left : ltb_ℤ t.queue_index (pos q_max) ≡ true =
      has_room t.queue_index (length (c ∷ cs)) (r.index ∙ q.counted) room in
    let stuck : t.mutexes c.packet ≡ true = r.locks c.packet ∙ is_held c.packet (held c.packet) in
    let free : t.mutexes empty_packet ≡ false =
      r.locks empty_packet
      ∙ not_held empty_packet c.packet (held empty_packet) q.distinct.1.0 q.unlocked.0 in
    (
      t,
      runs,
      get_blocked t c (first_at cs) head head_num free q.chain.3.0 first first_num stuck,
      add_paket-loop (suc later_fuel) t later.at later.packet c.at head head_num free room_left
          ∙ head_blocked later_fuel (record t { mutexes = update t.mutexes empty_packet true })
              later c (first_at cs) above (kept later.packet later.num there other) head head_num
              q.chain.3.0 first first_num
              (update-other t.mutexes empty_packet true c.packet (λ e. q.distinct.1.0 (sym e))
                ∙ stuck),
    )
  where
    packet_kept :
        (f : Ptr → Option ℤ) (k p : Ptr) (v : ℤ)
        → k ≢ p
        → f k ≡ some v
        → (if k == p then none else f k) ≡ some v
    packet_kept f k p v ne e = ground arith

    is_held : (k : Ptr) (b : Bool) → (k == k || b) ≡ true
    is_held k b = ground arith

    not_held : (k j : Ptr) (b : Bool) → k ≢ j → b ≡ false → (k == j || b) ≡ false
    not_held k j b ne e = ground arith
