-- ===== src/PacketQueue/Threads/Tests.antt =====
-- The calls of two threads, one in add_paket and one in get_paket of Praktikum 3/queue.c.
use mathlib.Core.List.{Perm}
use ws2425_bs_praktikum.Base.{
  ℕ, zero, suc, ◌<◌, ◌≤◌, ◌+◌, ◌*◌, ◌≡◌, ◌≢◌, refl, ◌⊎◌, List, [], ◌∷◌, ◌++◌, arith,
}
use ws2425_bs_praktikum.Base.Int.{ℤ, pos}
use ws2425_bs_praktikum.PacketQueue.Store.{Ptr, null, Store, ok, blocked}
use ws2425_bs_praktikum.PacketQueue.Operations.{
  q_max, unlock_unless_null, insert_before, unlink_first,
}
use ws2425_bs_praktikum.PacketQueue.Cells.{Cells, IsQueue}
use ws2425_bs_praktikum.PacketQueue.Bounded.{held_after}
use ws2425_bs_praktikum.PacketQueue.Ordered.{Call, add, get, spec, packets_of}
use ws2425_bs_praktikum.PacketQueue.Sample.{
  two_packets, two_packets-IsQueue, five, six, seven, no_mutex,
}
use ws2425_bs_praktikum.PacketQueue.Threads.Blocks.{
  Pc, entering, walking, before_first, returned, block, System, Log, Reach, add_enter, add_round,
  add_next, get_enter, get_first, get_second, get_last,
}
use ws2425_bs_praktikum.PacketQueue.Threads.Alone.{alone}
use ws2425_bs_praktikum.PacketQueue.Threads.Single.{alone-spec}
use ws2425_bs_praktikum.PacketQueue.Threads.Place.{Differ, IsLinked}
use ws2425_bs_praktikum.PacketQueue.Threads.Linear.{Brings, Applied}
use ws2425_bs_praktikum.PacketQueue.Threads.Progress.{CanGo}
use ws2425_bs_praktikum.PacketQueue.Threads.Together.{
  put_in, handed_out, threads-Applied, threads-ok, threads-CanGo, returned-IsQueue,
}
use ws2425_bs_praktikum.PacketQueue.Threads.Ends.{moves_of, moves_of-le}
use ws2425_bs_praktikum.PacketQueue.Threads.Schedule.{at_start, schedule, schedule-Reach}

abbrev crew : ℕ → Call
crew zero = add six
crew (suc _) = get

abbrev cells : Cells
cells = five ∷ seven ∷ []

crew-Brings : (i : ℕ) → i < 2 → Brings (crew i) cells two_packets
crew-Brings zero lt = ground arith
crew-Brings (suc i) lt = tt

crew-Differ : (i j : ℕ) → i < 2 → j < 2 → i ≢ j → Differ (crew i) (crew j)
crew-Differ zero zero lt lt' ne = absurd (ne refl)
crew-Differ zero (suc j) lt lt' ne = tt
crew-Differ (suc i) zero lt lt' ne = tt
crew-Differ (suc i) (suc j) lt lt' ne = tt

-- add_paket is two packets further before get_paket comes, and puts its packet behind the first,
-- that get_paket waits for.
abbrev turns : List ℕ
turns = 0 ∷ 0 ∷ 1 ∷ 1 ∷ 0 ∷ 1 ∷ 1 ∷ []

abbrev met : System × Log
met = schedule crew turns (at_start two_packets)

met-Reach : Reach 2 crew two_packets met.0 met.1
met-Reach = schedule-Reach 2 crew two_packets turns (ground arith)

met_log : met.1 ≡ (1, pos 0, 11) ∷ (0, pos 0, 0) ∷ []
unfolding block add_enter add_round unlock_unless_null add_next get_enter get_first insert_before
    get_second get_last unlink_first
met_log = refl

threads-Applied_example :
    (xs : Cells) × Applied crew cells met.1 xs
    × IsLinked met.0.store xs
    × Perm (put_in crew met.1 ++ packets_of cells) (handed_out crew met.1 ++ packets_of xs)
threads-Applied_example =
    threads-Applied 2 crew two_packets no_mutex cells two_packets-IsQueue crew-Brings crew-Differ
      met.0 met.1 met-Reach

-- Both are in the queue, and get_paket waits for the first packet.
abbrev between : System × Log
between = schedule crew (0 ∷ 0 ∷ 1 ∷ []) (at_start two_packets)

between-Reach : Reach 2 crew two_packets between.0 between.1
between-Reach = schedule-Reach 2 crew two_packets (0 ∷ 0 ∷ 1 ∷ []) (ground arith)

between_places : (between.0.pc 0 ≡ walking 21 12) × (between.0.pc 1 ≡ before_first 11)
unfolding block add_enter add_round unlock_unless_null add_next get_enter
between_places = (refl, refl)

threads-ok_example :
    (block get (between.0.pc 1) between.0.store ≡ blocked)
    ⊎ ((p : Pc) × (t : Store) × (block get (between.0.pc 1) between.0.store ≡ ok p t))
threads-ok_example =
    threads-ok 2 crew two_packets no_mutex cells two_packets-IsQueue crew-Brings crew-Differ
      between.0 between.1 between-Reach 1 (omega arith)

threads-CanGo_example : (j : ℕ) × (j < 2) × CanGo crew between.0 j
unfolding block add_enter add_round unlock_unless_null add_next get_enter
threads-CanGo_example =
    threads-CanGo 2 crew two_packets no_mutex cells two_packets-IsQueue crew-Brings crew-Differ
      between.0 between.1 between-Reach 1 (omega arith) tt

met_returned : (i : ℕ) → i < 2 → (a : ℤ × Ptr) × (met.0.pc i ≡ returned a)
unfolding block add_enter add_round unlock_unless_null add_next get_enter get_first insert_before
    get_second get_last unlink_first
met_returned zero lt = ((pos 0, null), refl)
met_returned (suc zero) lt = ((pos 0, 11), refl)
met_returned (suc (suc i)) lt = absurd (omega arith)

returned-IsQueue_example :
    (xs : Cells) × IsQueue met.0.store met.0.store.mutexes xs × Applied crew cells met.1 xs
returned-IsQueue_example =
    returned-IsQueue 2 crew two_packets no_mutex cells two_packets-IsQueue crew-Brings crew-Differ
      met.0 met.1 met-Reach met_returned

alone-spec_example :
    (t : Store) × (alone (q_max + 3) (add six) entering two_packets ≡ ok (spec (add six) cells).0 t)
    × IsQueue t (held_after (add six) cells no_mutex) (spec (add six) cells).1
    × ((k : Ptr) → t.packets k ≡ two_packets.packets k)
alone-spec_example =
    alone-spec (add six) two_packets no_mutex cells two_packets-IsQueue (ground arith)

moves_of-le_example : moves_of met-Reach ≤ 2 * (2 + 2 + 4)
moves_of-le_example =
    moves_of-le 2 crew two_packets no_mutex cells two_packets-IsQueue crew-Brings crew-Differ
      met-Reach
