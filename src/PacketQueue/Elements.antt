-- ===== src/PacketQueue/Elements.antt =====
-- `create_queue_element` of Praktikum 3/producer.c and `consume_queue_element` of
-- Praktikum 3/consumer.c. What malloc and rand give is an argument; sleeping has no effect here.
use ws2425_bs_praktikum.Base.{
  ℕ, zero, suc, ◌+◌, ◌%◌, false, Option, none, some, ◌==◌, if◌then◌else◌,
}
use ws2425_bs_praktikum.Base.Int.{ℤ, pos, ltb_ℤ, eqb_ℤ}
use ws2425_bs_praktikum.PacketQueue.Store.{
  Ptr, null, ok, fault, out_of_fuel, Cmd, pure, ◌>>=◌, ◌>>◌, update, load_num, free_packet,
}
use ws2425_bs_praktikum.PacketQueue.Operations.{add_paket, get_paket, queue_full, q_max}

-- For the n-th packet that a producer makes: where malloc puts the packet and, in add_paket, its
-- element, and the value of rand().
pub record Supply : Type 0 where
  pub packet_at : ℕ → Ptr
  pub element_at : ℕ → Ptr
  pub rand : ℕ → ℕ

-- malloc, `num = rand() % 100` and a fresh mutex.
unfoldable pub new_packet : Ptr → ℕ → Cmd (Unit {0})
new_packet p rand s =
    if p == null
    then fault
    else ok tt (record s {
      packets = update s.packets p (some (pos (rand % 100)));
      mutexes = update s.mutexes p false;
    })

abbrev pub read_errno : Cmd ℕ
read_errno s = ok s.errno s

-- The loop `while (add_paket(packet_ptr) < 0)`, for the n-th packet of the supply. The list of
-- add_paket is given as many rounds as the queue can have elements with its head, and one more.
unfoldable pub create_loop : ℕ → Supply → ℕ → Cmd (Unit {0})
create_loop zero supply n = λ _. out_of_fuel
create_loop (suc fuel) supply n =
    let again = create_loop fuel supply n in
    let another = create_loop fuel supply (n + 1) in
    do
      code ← add_paket (q_max + 2) (supply.element_at n) (supply.packet_at n)
      if ltb_ℤ code (pos 0)
          then (do
            errno ← read_errno
            if errno == queue_full
                then (do new_packet (supply.packet_at (n + 1)) (supply.rand (n + 1)); another)
                else again)
          else pure tt

unfoldable pub create_queue_element : ℕ → Supply → Cmd (Unit {0})
unfolding new_packet create_loop
create_queue_element fuel supply = do
  new_packet (supply.packet_at 0) (supply.rand 0)
  create_loop fuel supply 0

-- The number that is printed, if a packet was consumed.
unfoldable pub consume_queue_element : Cmd (Option ℤ)
consume_queue_element = do
  (code, packet) ← get_paket
  if eqb_ℤ code (pos 0)
      then (do num ← load_num packet; free_packet packet; pure (some num))
      else pure none
