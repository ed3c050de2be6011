-- ===== src/PacketQueue/Consume.antt =====
-- What one call of `consume_queue_element` of Praktikum 3/consumer.c does to the queue.
use ws2425_bs_praktikum.Base.{
  ◌≡◌, ◌≢◌, refl, sym, ◌∙◌, Bool, ◌||◌, none, some, [], ◌∷◌, arith, ◌==◌,
}
use ws2425_bs_praktikum.Base.Int.{pos}
use ws2425_bs_praktikum.PacketQueue.Store.{Ptr, null, Store, ok, update}
use ws2425_bs_praktikum.PacketQueue.Operations.{get_paket}
use ws2425_bs_praktikum.PacketQueue.Cells.{Cell, Cells, head_cell, Above, Chain, Foreign, IsQueue}
use ws2425_bs_praktikum.PacketQueue.Get.{get_paket_first}
use ws2425_bs_praktikum.PacketQueue.Elements.{consume_queue_element}

pub Chain-packets :
    (s t : Store) (prev k : Ptr) (cs : Cells)
    → ((a : Ptr) → t.elements a ≡ s.elements a)
    → ((j : Ptr) → j ≢ k → t.packets j ≡ s.packets j)
    → Foreign k cs
    → Chain s prev cs
    → Chain t prev cs
Chain-packets s t prev k [] f g x c = tt
Chain-packets s t prev k (c ∷ cs) f g (x, xs) (live, here, num, rest) = (
  live,
  f c.at ∙ here,
  g c.packet (λ e. x (sym e)) ∙ num,
  Chain-packets s t c.at k cs f g xs rest,
)

without_packet : Store → Ptr → Store
without_packet t k = record t { packets = update t.packets k none }

-- A queue does not notice that a packet of nobody is freed.
free-IsQueue :
    (t : Store) (held : Ptr → Bool) (k : Ptr) (cs : Cells)
    → Foreign k (head_cell ∷ cs)
    → IsQueue t held cs
    → IsQueue (without_packet t k) held cs
unfolding without_packet
free-IsQueue t held k cs f q = record {
  chain =
      Chain-packets t (without_packet t k) null k (head_cell ∷ cs) (λ a. refl)
        (λ j ne. ground arith) f q.chain;
  distinct = q.distinct;
  ascending = q.ascending;
  counted = q.counted;
  locks = q.locks;
  unlocked = q.unlocked;
}

consume_runs :
    (s t : Store) (c : Cell)
    → get_paket s ≡ ok (pos 0, c.packet) t
    → t.packets c.packet ≡ some c.num
    → consume_queue_element s ≡ ok (some c.num) (without_packet t c.packet)
unfolding consume_queue_element without_packet
consume_runs s t c runs num = ground arith

-- On a queue with a packet that no other thread is in, consume_queue_element does not block: it
-- delivers the smallest number of the queue and frees the packet and its element, and the other
-- cells stay as the queue.
pub consume_first :
    (s : Store) (held : Ptr → Bool) (c : Cell) (cs : Cells)
    → IsQueue s held (c ∷ cs)
    → (t : Store) × (consume_queue_element s ≡ ok (some c.num) t)
      × IsQueue t (λ k. k == c.packet || held k) cs
      × Above c.num cs
      × (t.packets c.packet ≡ none)
      × (t.elements c.at ≡ none)
unfolding without_packet
consume_first s held c cs q =
    let (t, runs, taken, smallest) = get_paket_first s held c cs q in
    let f : Foreign c.packet (head_cell ∷ cs) = ((λ e. q.distinct.1.0 (sym e)), q.distinct.2.1) in
    (
      without_packet t c.packet,
      consume_runs s t c runs (taken.packets c.packet ∙ q.chain.3.2),
      free-IsQueue t (λ k. k == c.packet || held k) c.packet cs f taken.queue,
      smallest,
      ground arith,
      taken.freed,
    )
