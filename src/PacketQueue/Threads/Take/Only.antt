-- ===== src/PacketQueue/Threads/Take/Only.antt =====
-- get_paket of Praktikum 3/queue.c takes the only cell, while other calls wait in the queue.
use ws2425_bs_praktikum.Base.{
  true, false, ◌≡◌, ◌≢◌, refl, sym, inl, inr, none, some, [], ◌∷◌, arith,
}
use ws2425_bs_praktikum.Base.Int.{pos, negsuc, ◌-ℤ◌}
use ws2425_bs_praktikum.PacketQueue.Store.{Ptr, null, element, Store, ok, update}
use ws2425_bs_praktikum.PacketQueue.Operations.{queue_head, empty_packet, unlink_first}
use ws2425_bs_praktikum.PacketQueue.Cells.{Cell}
use ws2425_bs_praktikum.PacketQueue.Ordered.{get}
use ws2425_bs_praktikum.PacketQueue.Threads.Blocks.{before_first, returned, get_first, get_last}
use ws2425_bs_praktikum.PacketQueue.Threads.Place.{IsLinked, Moves}
use ws2425_bs_praktikum.PacketQueue.Threads.Take.{take-Moves}

-- The only cell.
module _ (s : Store) (c : Cell) where
  pub store_last : Store
  store_last = record s {
    elements =
        update (update s.elements queue_head (some (element empty_packet null null))) c.at none;
    mutexes = update (update s.mutexes c.packet true) empty_packet false;
    queue_index = s.queue_index -ℤ pos 1;
  }

  last_runs :
      s.elements queue_head ≡ some (element empty_packet c.at null)
      → s.packets empty_packet ≡ some (negsuc 0)
      → c.at ≢ null
      → c.at ≢ queue_head
      → s.elements c.at ≡ some (element c.packet null queue_head)
      → s.packets c.packet ≡ some c.num
      → c.packet ≢ empty_packet
      → s.mutexes c.packet ≡ false
      → s.mutexes empty_packet ≡ true
      → get_first c.packet s ≡ ok (returned (pos 0, c.packet)) store_last
  unfolding store_last get_first get_last unlink_first
  last_runs head hn live ch here num other free held = ground arith

  last-head :
      c.at ≢ queue_head → store_last.elements queue_head ≡ some (element empty_packet null null)
  unfolding store_last
  last-head h = ground arith

  last-frame : (k : Ptr) → k ≢ empty_packet → k ≢ c.packet → store_last.mutexes k ≡ s.mutexes k
  unfolding store_last
  last-frame k x y = ground arith

module _ (s : Store) (c : Cell) (linked : IsLinked s (c ∷ []))
    (held : s.mutexes empty_packet ≡ true) (free : s.mutexes c.packet ≡ false) where
  other_at : c.at ≢ queue_head
  other_at e = linked.1.0.0 (sym e)

  pub last-runs : get_first c.packet s ≡ ok (returned (pos 0, c.packet)) (store_last s c)
  last-runs =
      let (live, here, num, rest) = linked.0.3 in
      last_runs s c linked.0.1 linked.0.2 live other_at here num (λ e. linked.1.1.0 (sym e)) free
        held

  pub last-Moves :
      Moves get (before_first c.packet) (returned (pos 0, c.packet)) s (store_last s c) (c ∷ []) []
  unfolding store_last ◌-ℤ◌
  last-Moves =
      take-Moves (before_first c.packet) s c [] refl (inr free) (store_last s c) linked
        (linked.0.0, last-head s c other_at, linked.0.2, tt) refl (λ k. refl)
        (λ k f. last-frame s c k f.0 f.1.0) (λ x m. elim m [ inl e ↦ rw e refl | inr n ↦ absurd n ])
