-- ===== src/PacketQueue/Full.antt =====
-- `add_paket` of Praktikum 3/queue.c on a full queue.
use ws2425_bs_praktikum.Base.{ℕ, ◌≤◌, ◌≡◌, refl, Bool, true, false, arith, length}
use ws2425_bs_praktikum.Base.Int.{negsuc}
use ws2425_bs_praktikum.PacketQueue.Store.{Ptr, Store, ok, update}
use ws2425_bs_praktikum.PacketQueue.Operations.{q_max, add_paket, queue_full}
use ws2425_bs_praktikum.PacketQueue.Cells.{Cells, IsQueue, Chain-frame}

-- A queue of QMAX or more packets, with no other thread in it, refuses a packet: -1, errno
-- QUEUE_FULL, and nothing else changes.
pub add_paket_full :
    (fuel : ℕ) (s : Store) (held : Ptr → Bool) (cs : Cells) (fresh packet : Ptr)
    → IsQueue s held cs
    → q_max ≤ length cs
    → (t : Store) × (add_paket fuel fresh packet s ≡ ok (negsuc 0) t)
      × IsQueue t held cs
      × (t.errno ≡ queue_full)
      × (t.misuse ≡ s.misuse)
      × ((k : Ptr) → t.packets k ≡ s.packets k)
unfolding add_paket
add_paket_full fuel s held cs fresh packet q full = (
  record s { mutexes = update (update s.mutexes 1 true) 1 false; errno = queue_full },
  ground (arith, q.locks 1),
  record {
    chain = (
      q.chain.0,
      q.chain.1,
      q.chain.2,
      Chain-frame s
          (record s { mutexes = update (update s.mutexes 1 true) 1 false; errno = queue_full }) 1 1
          1 1 cs (λ a x y z. refl) (λ k. refl) q.distinct.0 q.distinct.0 q.distinct.0 q.chain.3,
    );
    distinct = q.distinct;
    ascending = q.ascending;
    counted = q.counted;
    locks = λ k. ground (arith, q.locks 1, q.locks k);
    unlocked = q.unlocked;
  },
  refl,
  refl,
  λ k. refl,
)
