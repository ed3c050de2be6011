-- ===== src/PacketQueue/Tests.antt =====
-- The theorems about Praktikum 3/queue.c at concrete queues.
use ws2425_bs_praktikum.Base.{
  true, ◌<◌, if◌then◌else◌, ◌+◌, ◌≤◌, ◌≡◌, refl, none, some, false, ◌==◌, ◌||◌, ℕ, List, [], ◌∷◌,
  ◌++◌, arith,
}
use ws2425_bs_praktikum.Base.Int.{ℤ, pos, negsuc}
use ws2425_bs_praktikum.PacketQueue.Store.{fault, Store, Ptr, ok, blocked, element, null}
use ws2425_bs_praktikum.PacketQueue.Operations.{add_paket, get_paket}
use ws2425_bs_praktikum.PacketQueue.Cells.{cell, IsQueue, Above}
use ws2425_bs_praktikum.PacketQueue.Get.{get_paket_first, Taken}
use ws2425_bs_praktikum.PacketQueue.Reject.{Rejected}
use ws2425_bs_praktikum.PacketQueue.Duplicate.{add_paket-duplicate, duplicate_blocks}
use mathlib.Core.List.{Perm}
use ws2425_bs_praktikum.PacketQueue.Cells.{Cells}
use ws2425_bs_praktikum.PacketQueue.Bounded.{calls, held_afters, calls-specs}
use ws2425_bs_praktikum.PacketQueue.Ordered.{Call, add, get, specs, accepted, delivered, packets_of}
use ws2425_bs_praktikum.PacketQueue.Elements.{consume_queue_element}
use ws2425_bs_praktikum.PacketQueue.Elements.{create_loop, create_queue_element}
use ws2425_bs_praktikum.PacketQueue.Produce.{
  IsSupplied, first_cell, create-insert, create-duplicate,
}
use ws2425_bs_praktikum.PacketQueue.Observer.{line, print_queue_status}
use ws2425_bs_praktikum.PacketQueue.Watch.{print-lines}
use ws2425_bs_praktikum.PacketQueue.Consume.{consume_first}
use ws2425_bs_praktikum.PacketQueue.Sample.{
  no_mutex, two_packets, five, seven, six, other_five, two_packets-IsQueue, other_five-IsNew,
  one_packet, one_packet-IsQueue, walked, walked-AtEnd,
}
use ws2425_bs_praktikum.PacketQueue.Crowd.{
  cells_from, full_queue, full_queue-IsQueue, supply_of, supply_of-IsFresh,
}
use ws2425_bs_praktikum.PacketQueue.Waits.{create-waits}
use ws2425_bs_praktikum.Base.Threads.{put_at, sum_of}
use ws2425_bs_praktikum.Base.Int.{◌+ℤ◌, ◌≤ℤ◌}
use ws2425_bs_praktikum.PacketQueue.Index
use ws2425_bs_praktikum.PacketQueue.Index.{
  Pc, Shared, load_add, store_add, load_get, store_get, moves,
}
use ws2425_bs_praktikum.PacketQueue.Drift.{adds, gets, drift_bounds}
use ws2425_bs_praktikum.PacketQueue.Dangling.{print_head, print-freed}
use ws2425_bs_praktikum.PacketQueue.Observer.{print_loop}
use ws2425_bs_praktikum.PacketQueue.Store.{lock}
use ws2425_bs_praktikum.PacketQueue.Operations.{append, unlock_unless_null}
use ws2425_bs_praktikum.PacketQueue.Stolen.{append-unlocks_other}

get_paket_first_example :
    (t : Store) × (get_paket two_packets ≡ ok (pos 0, 11) t)
    × Taken two_packets t no_mutex five (seven ∷ [])
    × Above (pos 5) (seven ∷ [])
get_paket_first_example = get_paket_first two_packets no_mutex five (seven ∷ []) two_packets-IsQueue

consume_first_example :
    (t : Store) × (consume_queue_element two_packets ≡ ok (some (pos 5)) t)
    × IsQueue t (λ k. k == 11 || false) (seven ∷ [])
    × Above (pos 5) (seven ∷ [])
    × (t.packets 11 ≡ none)
    × (t.elements 21 ≡ none)
consume_first_example = consume_first two_packets no_mutex five (seven ∷ []) two_packets-IsQueue

add_paket-duplicate_example :
    (t : Store) × (add_paket 3 24 14 two_packets ≡ ok (negsuc 0) t)
    × Rejected two_packets t no_mutex 14 11
add_paket-duplicate_example =
    add_paket-duplicate 3 two_packets no_mutex other_five (five ∷ seven ∷ []) 11 two_packets-IsQueue
      other_five-IsNew (omega arith) (omega arith) refl

duplicate_blocks_example :
    (t : Store) × (add_paket 3 24 14 two_packets ≡ ok (negsuc 0) t)
    × (get_paket t ≡ blocked)
    × (add_paket 1 23 13 t ≡ blocked)
duplicate_blocks_example =
    duplicate_blocks 3 0 two_packets no_mutex other_five six five (seven ∷ []) two_packets-IsQueue
      other_five-IsNew (omega arith) (omega arith) refl refl (omega arith) (omega arith)

print-lines_example :
    (t : Store) × (print_queue_status 3 two_packets
      ≡ ok (line 0 (negsuc 0) ∷ line 1 (pos 5) ∷ line 2 (pos 7) ∷ []) t)
    × IsQueue t no_mutex (five ∷ seven ∷ [])
    × (t.misuse ≡ 1)
print-lines_example =
    print-lines two_packets no_mutex 3 (five ∷ seven ∷ []) two_packets-IsQueue (omega arith)

supply_of-IsSupplied : (r : ℕ) → IsSupplied no_mutex (first_cell (supply_of r)) (five ∷ seven ∷ [])
supply_of-IsSupplied r = ground arith

create-insert_example :
    (t : Store) × (create_queue_element 1 (supply_of 106) two_packets ≡ ok tt t)
    × IsQueue t no_mutex (five ∷ cell 200 100 (pos 6) ∷ seven ∷ [])
create-insert_example =
    create-insert (supply_of 106) two_packets no_mutex (five ∷ seven ∷ []) 0 two_packets-IsQueue
      (supply_of-IsSupplied 106) (omega arith) refl

create-duplicate_example : create_queue_element 2 (supply_of 105) two_packets ≡ fault
create-duplicate_example =
    create-duplicate 0 (supply_of 105) two_packets no_mutex (five ∷ seven ∷ []) 11
      two_packets-IsQueue (supply_of-IsSupplied 105) (omega arith) refl

-- A packet is put in between, the first two are taken, and then one comes that was there before.
abbrev some_calls : List Call
some_calls = add six ∷ get ∷ get ∷ get ∷ get ∷ []

calls-specs_example :
    (t : Store) × (as_told : List (ℤ × Ptr)) × (last : Cells) × (calls some_calls two_packets
      ≡ ok as_told t)
    × IsQueue t (held_afters some_calls (five ∷ seven ∷ []) no_mutex) last
    × (specs some_calls (five ∷ seven ∷ []) ≡ (as_told, last))
    × Perm
        (accepted some_calls as_told ++ 11 ∷ 12 ∷ [])
        (delivered some_calls as_told ++ packets_of last)
calls-specs_example =
    calls-specs some_calls two_packets no_mutex (five ∷ seven ∷ []) two_packets-IsQueue
      (ground arith)

some_answers :
    specs some_calls (five ∷ seven ∷ [])
    ≡ ((pos 0, null) ∷ (pos 0, 11) ∷ (pos 0, 13) ∷ (pos 0, 12) ∷ (negsuc 0, null) ∷ [], [])
unfolding specs
some_answers = refl

print-freed_example :
    (t u : Store) × (print_head one_packet ≡ ok (line 0 (negsuc 0), some 21) t)
    × IsQueue t no_mutex (five ∷ [])
    × (consume_queue_element t ≡ ok (some (pos 5)) u)
    × IsQueue u (λ k. k == 11 || no_mutex k) []
    × (u.packets 11 ≡ none)
    × (u.elements 21 ≡ none)
    × (print_loop 3 1 21 u ≡ fault)
print-freed_example = print-freed one_packet no_mutex five 2 one_packet-IsQueue

append-unlocks_other_example :
    (t u v : Store) × (unlock_unless_null 21 walked ≡ ok tt t)
    × (lock 11 t ≡ ok tt u)
    × (append 23 13 22 21 u ≡ ok (pos 0) v)
    × (v.mutexes 11 ≡ false)
    × (v.misuse ≡ 0)
append-unlocks_other_example =
    append-unlocks_other walked 23 13 22 21 (element 12 0 21) (element 11 22 1) walked-AtEnd
      (ground arith) (ground arith) (ground arith)

create-waits_example :
    (t : Store) × (create_queue_element (7 + 2) (supply_of 5) full_queue
      ≡ create_loop 2 (supply_of 5) 7 t)
    × IsQueue t no_mutex (cells_from 2 25)
    × ((i : ℕ) → i ≤ 7 → t.packets (100 + i) ≡ some (pos 5))
create-waits_example =
    create-waits (supply_of 5) no_mutex (cells_from 2 25) (supply_of-IsFresh 5) (omega arith) 7 2
      full_queue full_queue-IsQueue

-- A call of add_paket and one of get_paket whose accesses overlap: the decrement is lost.
abbrev two_calls : ℕ → Pc
two_calls k = if k == 0 then Pc.adding else Pc.getting

two_calls-before : (k : ℕ) → k < 2 → Index.is_before (two_calls k) ≡ true
two_calls-before k lt = ground arith

abbrev overlapped : ℕ → Pc
overlapped =
    put_at
      (put_at (put_at (put_at two_calls 0 (Pc.added_to (pos 3))) 1 (Pc.taken_from (pos 3))) 1
        Pc.got)
      0 Pc.added

overlapped_reached :
    Index.Reach 2 (pos 3) (record { index = pos 3 +ℤ pos 1; head_held = false; calls = overlapped })
overlapped_reached =
    let r1 =
      Index.later (Index.start two_calls two_calls-before) (moves 0 (omega arith) load_add) in
    let r2 = Index.later r1 (moves 1 (omega arith) (load_get refl)) in
    let r3 = Index.later r2 (moves 1 (omega arith) (store_get (pos 3))) in
    Index.later r3 (moves 0 (omega arith) (store_add (pos 3)))

drift_bounds_example :
    (pos 3 ≤ℤ pos 3 +ℤ pos 1 +ℤ pos (sum_of gets 2 overlapped))
    × (pos 3 +ℤ pos 1 ≤ℤ pos 3 +ℤ pos (sum_of adds 2 overlapped))
drift_bounds_example = drift_bounds overlapped_reached

-- Both calls are behind their access, and queue_index is 4.
overlapped_index : (pos 3 +ℤ pos 1 ≡ pos 4) × (overlapped 0 ≡ Pc.added) × (overlapped 1 ≡ Pc.got)
unfolding ◌+ℤ◌
overlapped_index = (refl, refl, refl)
