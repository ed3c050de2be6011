-- ===== src/PacketQueue/Dangling.antt =====
-- A print of the observer of Praktikum 3/observer.c beside a consumer.
use ws2425_bs_praktikum.Base.{
  ℕ, suc, ◌≡◌, ◌≢◌, ◌==◌, ◌||◌, Bool, true, false, Option, none, some, [], ◌∷◌, arith,
}
use ws2425_bs_praktikum.Base.Int.{negsuc}
use ws2425_bs_praktikum.PacketQueue.Store.{Ptr, null, Store, ok, fault, Cmd, ◌>>◌, update}
use ws2425_bs_praktikum.PacketQueue.Operations.{queue_head}
use ws2425_bs_praktikum.PacketQueue.Cells.{Cell, IsQueue}
use ws2425_bs_praktikum.PacketQueue.Elements.{consume_queue_element}
use ws2425_bs_praktikum.PacketQueue.Consume.{consume_first}
use ws2425_bs_praktikum.PacketQueue.Observer.{Line, line, lock_head, print_round, print_loop}

-- print_queue_status up to the end of its first round, which prints the head.
abbrev pub print_head : Cmd (Line × Option Ptr)
print_head = lock_head >> print_round 0 queue_head

module _ (s : Store) (held : Ptr → Bool) (c : Cell) (q : IsQueue s held (c ∷ [])) where
  head_printed : Store
  head_printed = record s { mutexes = update (update s.mutexes 1 true) 1 false }

  head_printed-IsQueue : IsQueue head_printed held (c ∷ [])
  unfolding head_printed
  head_printed-IsQueue = record {
    chain = q.chain;
    distinct = q.distinct;
    ascending = q.ascending;
    counted = q.counted;
    locks = λ k. ground (arith, q.locks 1, q.locks k);
    unlocked = q.unlocked;
  }

  print_head_runs : print_head s ≡ ok (line 0 (negsuc 0), some c.at) head_printed
  unfolding lock_head print_round head_printed
  print_head_runs = ground (arith, q.locks 1)

freed_print :
    (u : Store) (fuel : ℕ) (p : Ptr)
    → p ≢ null
    → u.elements p ≡ none
    → print_loop (suc fuel) 1 p u ≡ fault
unfolding print_loop print_round
freed_print u fuel p live e = ground arith

-- On a queue of one packet that no other thread is in: print_queue_status prints the head and then
-- stands at the packet's element without any mutex. If consume_queue_element runs then, it delivers
-- the packet's number, the queue is empty, the packet and its element are freed, and the next round
-- of print_queue_status, which uses that element, is an access to freed memory.
pub print-freed :
    (s : Store) (held : Ptr → Bool) (c : Cell) (fuel : ℕ)
    → IsQueue s held (c ∷ [])
    → (t u : Store) × (print_head s ≡ ok (line 0 (negsuc 0), some c.at) t)
      × IsQueue t held (c ∷ [])
      × (consume_queue_element t ≡ ok (some c.num) u)
      × IsQueue u (λ k. k == c.packet || held k) []
      × (u.packets c.packet ≡ none)
      × (u.elements c.at ≡ none)
      × (print_loop (suc fuel) 1 c.at u ≡ fault)
print-freed s held c fuel q =
    let t = head_printed s held c q in
    let still = head_printed-IsQueue s held c q in
    let (u, runs, empty, _, gone, freed) = consume_first t held c [] still in
    (
      t,
      u,
      print_head_runs s held c q,
      still,
      runs,
      empty,
      gone,
      freed,
      freed_print u fuel c.at q.chain.3.0 freed,
    )
