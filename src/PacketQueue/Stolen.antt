-- ===== src/PacketQueue/Stolen.antt =====
-- The end of the queue in add_paket of Praktikum 3/queue.c, lines 72 to 93, beside another thread.
use ws2425_bs_praktikum.Base.{◌≡◌, ◌≢◌, refl, true, false, some, arith}
use ws2425_bs_praktikum.Base.Int.{ℤ, pos, ◌+ℤ◌}
use ws2425_bs_praktikum.PacketQueue.Store.{Ptr, null, Element, element, Store, ok, update, lock}
use ws2425_bs_praktikum.PacketQueue.Operations.{unlock_unless_null, append}

-- A walker holds the mutexes of the last element and of the one before it.
pub record AtEnd (s : Store) (current prev : Ptr) (e p : Element) : Type 0 where
  pub here : s.elements current ≡ some e
  pub last : e.next ≡ null
  pub before : s.elements prev ≡ some p
  pub number : ℤ
  pub num : s.packets e.packet ≡ some number
  pub number_before : ℤ
  pub num_before : s.packets p.packet ≡ some number_before
  pub lives : prev ≢ null
  pub apart : prev ≢ current
  pub own_packets : p.packet ≢ e.packet
  pub holds : s.mutexes e.packet ≡ true
  pub holds_before : s.mutexes p.packet ≡ true

module _ (s : Store) (fresh packet current prev : Ptr) (e p : Element)
    (w : AtEnd s current prev e p) where
  passed : Store
  passed = record s { mutexes = update s.mutexes p.packet false }

  entered : Store
  entered = record s { mutexes = update (update s.mutexes p.packet false) p.packet true }

  ended : Store
  ended = record s {
    elements =
        update (update s.elements fresh (some (element packet null current))) current
          (some (record e { next = fresh }));
    mutexes =
        update (update (update (update s.mutexes p.packet false) p.packet true) p.packet false)
          e.packet false;
    queue_index = s.queue_index +ℤ pos 1;
  }

  -- With a walker at the last element: it unlocks the mutex before it, another thread locks that
  -- mutex, and the walker goes on to append its packet. Then the mutex is free though the other
  -- thread has not unlocked it, and no unlock was of a mutex that is not held.
  pub append-unlocks_other :
      fresh ≢ null
      → fresh ≢ current
      → fresh ≢ prev
      → (t u v : Store) × (unlock_unless_null prev s ≡ ok tt t)
        × (lock p.packet t ≡ ok tt u)
        × (append fresh packet current prev u ≡ ok (pos 0) v)
        × (v.mutexes p.packet ≡ false)
        × (v.misuse ≡ s.misuse)
  unfolding unlock_unless_null append passed entered ended
  append-unlocks_other new other other_before = (
    passed,
    entered,
    ended,
    ground (arith, w.here, w.before, w.num, w.num_before),
    ground (arith, w.here, w.before, w.num, w.num_before),
    ground (arith, w.here, w.before, w.num, w.num_before),
    ground (arith, w.here, w.before, w.num, w.num_before),
    refl,
  )
