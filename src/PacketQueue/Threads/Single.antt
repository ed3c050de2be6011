-- ===== src/PacketQueue/Threads/Single.antt =====
-- A call of Praktikum 3/queue.c in its pieces, by a thread that is alone in the queue.
use ws2425_bs_praktikum.Base.{◌+◌, ◌≡◌, refl, Bool, [], ◌∷◌}
use ws2425_bs_praktikum.PacketQueue.Store.{Ptr, Store, ok}
use ws2425_bs_praktikum.PacketQueue.Operations.{q_max}
use ws2425_bs_praktikum.PacketQueue.Cells.{Cells, IsQueue}
use ws2425_bs_praktikum.PacketQueue.Ordered.{Call, spec}
use ws2425_bs_praktikum.PacketQueue.Bounded.{held_after, Keeps, step}
use ws2425_bs_praktikum.PacketQueue.Threads.Blocks.{entering}
use ws2425_bs_praktikum.PacketQueue.Threads.Alone.{alone, call-alone}

-- The pieces of a call of add_paket or get_paket, run one after the other by one thread with no
-- other thread in the queue, by a caller that keeps to the rules (a packet of its own, its number
-- not negative and not yet in the queue, memory from malloc): q_max + 3 pieces are enough for the
-- call to return, its answer is that of the same call on the bounded ordered list, and the memory
-- afterwards is a queue that holds the new list, with no mutex held but those that were, and after
-- get_paket that of the packet it took. No packet is changed or freed.
pub alone-spec :
    (c : Call) (s : Store) (held : Ptr → Bool) (cs : Cells)
    → IsQueue s held cs
    → Keeps s.packets held cs (c ∷ [])
    → (t : Store) × (alone (q_max + 3) c entering s ≡ ok (spec c cs).0 t)
      × IsQueue t (held_after c cs held) (spec c cs).1
      × ((k : Ptr) → t.packets k ≡ s.packets k)
alone-spec c s held cs q k =
    let (now, _) = step s s.packets held c [] cs (λ p. refl) q k in
    (now.after, call-alone c s (spec c cs).0 now.after now.runs, now.queue, now.packets)
