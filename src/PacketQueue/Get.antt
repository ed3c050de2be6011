-- ===== src/PacketQueue/Get.antt =====
-- `get_paket` of Praktikum 3/queue.c on a queue that no other thread is in.
use ws2425_bs_praktikum.Base.{◌≡◌, refl, Bool, true, false, ◌||◌, none, some, [], ◌∷◌, arith, ◌==◌}
use ws2425_bs_praktikum.Base.Int.{pos, negsuc, ◌-ℤ◌}
use ws2425_bs_praktikum.PacketQueue.Store.{Ptr, null, element, Store, ok, update}
use ws2425_bs_praktikum.PacketQueue.Operations.{get_paket, queue_empty}
use ws2425_bs_praktikum.PacketQueue.Cells.{
  Cell, Cells, first_at, Chain, Foreign, Unlocked, Above, IsQueue, Chain-frame,
}

-- On an empty queue that no other thread is in, get_paket returns -1 with errno QUEUE_EMPTY and
-- leaves everything else alone.
pub get_paket_empty :
    (s : Store) (held : Ptr → Bool)
    → IsQueue s held []
    → (t : Store) × (get_paket s ≡ ok (negsuc 0, null) t)
      × IsQueue t held []
      × (t.errno ≡ queue_empty)
      × (t.misuse ≡ s.misuse)
      × ((k : Ptr) → t.packets k ≡ s.packets k)
unfolding get_paket
get_paket_empty s held q = (
  record s { mutexes = update (update s.mutexes 1 true) 1 false; errno = queue_empty },
  ground (arith, q.locks 1),
  record {
    chain = q.chain;
    distinct = q.distinct;
    ascending = q.ascending;
    counted = q.counted;
    locks = λ k. ground (arith, q.locks 1, q.locks k);
    unlocked = q.unlocked;
  },
  refl,
  refl,
  λ k. refl,
)

Unlocked-take :
    (held : Ptr → Bool) (k : Ptr) (cs : Cells)
    → Foreign k cs
    → Unlocked held cs
    → Unlocked (λ j. j == k || held j) cs
Unlocked-take held k [] f u = tt
Unlocked-take held k (c ∷ cs) (x, f) (h, u) = (ground arith, Unlocked-take held k cs f u)

pub record Taken (s t : Store) (held : Ptr → Bool) (c : Cell) (cs : Cells) : Type 0 where
  pub queue : IsQueue t (λ k. k == c.packet || held k) cs
  pub freed : t.elements c.at ≡ none
  pub packets : (k : Ptr) → t.packets k ≡ s.packets k
  pub errno : t.errno ≡ s.errno
  pub misuse : t.misuse ≡ s.misuse

module _ (s : Store) (held : Ptr → Bool) (c : Cell) where
  after_last : Store
  after_last = record s {
    elements = update (update s.elements 1 (some (element 1 0 0))) c.at none;
    mutexes = update (update (update s.mutexes 1 true) c.packet true) 1 false;
    queue_index = s.queue_index -ℤ pos 1;
  }

  get_last : IsQueue s held (c ∷ []) → get_paket s ≡ ok (pos 0, c.packet) after_last
  unfolding get_paket after_last
  get_last q = ground (arith, q.locks 1, q.locks c.packet)

  last-Taken : IsQueue s held (c ∷ []) → Taken s after_last held c []
  unfolding after_last ◌-ℤ◌
  last-Taken q = record {
    queue = record {
      chain = ground arith;
      distinct = (tt, tt, tt);
      ascending = (tt, tt);
      counted = ground arith;
      locks = λ k. ground (arith, q.locks 1, q.locks k);
      unlocked = ground arith;
    };
    freed = ground arith;
    packets = λ k. refl;
    errno = refl;
    misuse = refl;
  }

  module _ (d : Cell) (cs : Cells) where
    after_first : Store
    after_first = record s {
      elements =
          update
            (update (update s.elements 1 (some (element 1 d.at 0))) d.at
              (some (element d.packet (first_at cs) 1)))
            c.at none;
      mutexes =
          update
            (update (update (update (update s.mutexes 1 true) c.packet true) d.packet true) d.packet
              false)
            1 false;
      queue_index = s.queue_index -ℤ pos 1;
    }

    get_first : IsQueue s held (c ∷ d ∷ cs) → get_paket s ≡ ok (pos 0, c.packet) after_first
    unfolding get_paket after_first
    get_first q = ground (arith, q.locks 1, q.locks c.packet, q.locks d.packet)

    rest-Chain : IsQueue s held (c ∷ d ∷ cs) → Chain after_first 1 (d ∷ cs)
    unfolding after_first
    rest-Chain q =
        let (live, here, num, rest) = q.chain.3.3 in
        (
          live,
          ground arith,
          num,
          Chain-frame s after_first d.at 1 d.at c.at cs (λ a x y z. ground arith) (λ k. refl)
              q.distinct.0.1.1 q.distinct.2.2.0 q.distinct.2.0.1 rest,
        )

    first-Taken : IsQueue s held (c ∷ d ∷ cs) → Taken s after_first held c (d ∷ cs)
    unfolding after_first ◌-ℤ◌
    first-Taken q = record {
      queue = record {
        chain = (q.chain.0, ground arith, q.chain.2, rest-Chain q);
        distinct = (q.distinct.0.1, q.distinct.1.1, q.distinct.2.2);
        ascending = (q.ascending.0.1, q.ascending.1.1);
        counted = ground arith;
        locks = λ k. ground (arith, q.locks 1, q.locks d.packet, q.locks k);
        unlocked =
            (ground arith, Unlocked-take held c.packet (d ∷ cs) q.distinct.2.1 q.unlocked.1.1);
      };
      freed = ground arith;
      packets = λ k. refl;
      errno = refl;
      misuse = refl;
    }

-- On a queue with a packet that no other thread is in, get_paket returns 0 and the first packet,
-- which has the smallest number. It does not block; the other cells stay as the queue, the element
-- is freed, no mutex is unlocked twice. The mutex inside the packet that was taken stays held.
pub get_paket_first :
    (s : Store) (held : Ptr → Bool) (c : Cell) (cs : Cells)
    → IsQueue s held (c ∷ cs)
    → (t : Store) × (get_paket s ≡ ok (pos 0, c.packet) t) × Taken s t held c cs × Above c.num cs
get_paket_first s held c [] q =
    (after_last s held c, get_last s held c q, last-Taken s held c q, tt)
get_paket_first s held c (d ∷ cs) q = (
  after_first s held c d cs,
  get_first s held c d cs q,
  first-Taken s held c d cs q,
  q.ascending.1.0,
)
