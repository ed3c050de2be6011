-- ===== src/PacketQueue/Waits.antt =====
-- The loop of `create_queue_element` of Praktikum 3/producer.c while the queue is full.
use ws2425_bs_praktikum.Base.{
  ℕ, zero, suc, ◌+◌, ◌%◌, ◌≤◌, ◌≡◌, ◌≢◌, refl, ◌∙◌, Bool, true, some, arith, ◌==◌, length, inl, inr,
  Bool-cases,
}
use ws2425_bs_praktikum.Base.Int.{pos, negsuc}
use ws2425_bs_praktikum.PacketQueue.Store.{Ptr, Store, ok}
use ws2425_bs_praktikum.PacketQueue.Operations.{q_max, add_paket, queue_full}
use ws2425_bs_praktikum.PacketQueue.Cells.{Cell, Cells, cell, IsQueue}
use ws2425_bs_praktikum.PacketQueue.Full.{add_paket_full}
use ws2425_bs_praktikum.PacketQueue.Elements.{Supply, new_packet, create_loop, create_queue_element}
use ws2425_bs_praktikum.PacketQueue.Produce.{IsSupplied, with_packet, packet-IsQueue}

-- The cell that the n-th packet of a supply can become.
abbrev pub cell_at : Supply → ℕ → Cell
cell_at supply n = cell (supply.element_at n) (supply.packet_at n) (pos (supply.rand n % 100))

-- Every malloc gives memory that nothing uses, another each time.
pub record IsFresh (supply : Supply) (held : Ptr → Bool) (cs : Cells) : Type 0 where
  pub supplied : (n : ℕ) → IsSupplied held (cell_at supply n) cs
  pub other : (i j : ℕ) → i ≢ j → supply.packet_at i ≢ supply.packet_at j

module _ (supply : Supply) (held : Ptr → Bool) (cs : Cells) (fresh : IsFresh supply held cs)
    (full : q_max ≤ length cs) where
  made :
      (n : ℕ) (t : Store)
      → new_packet (supply.packet_at n) (supply.rand n) t
        ≡ ok tt (with_packet t held (cell_at supply n) cs)
  unfolding new_packet with_packet
  made n t = ground (arith, (fresh.supplied n).packet_live)

  refused :
      (fuel n : ℕ) (s t : Store)
      → add_paket (q_max + 2) (supply.element_at n) (supply.packet_at n) s ≡ ok (negsuc 0) t
      → t.errno ≡ queue_full
      → create_loop (suc fuel) supply n s
        ≡ create_loop fuel supply (n + 1) (with_packet t held (cell_at supply (n + 1)) cs)
  unfolding create_loop
  refused fuel n s t runs e =
      let is_full : (t.errno == queue_full) ≡ true = ground arith in
      rw runs (rw is_full (rw (made (n + 1) t) refl))

  -- The packets 0, ..., n of the supply are allocated.
  abbrev pub Made : ℕ → Store → Type 0
  Made n s = (i : ℕ) → i ≤ n → s.packets (supply.packet_at i) ≡ some (pos (supply.rand i % 100))

  Made-with_packet :
      (n : ℕ) (s t : Store)
      → ((k : Ptr) → t.packets k ≡ s.packets k)
      → Made n s
      → Made (n + 1) (with_packet t held (cell_at supply (n + 1)) cs)
  unfolding with_packet
  Made-with_packet n s t same m i h = elim (Bool-cases (i == n + 1)) [
    | inl last ↦ ground arith
    | inr earlier ↦ ground (arith, m i, same (supply.packet_at i), fresh.other i (n + 1))
  ]

  first-Made : (s : Store) → Made 0 (with_packet s held (cell_at supply 0) cs)
  unfolding with_packet
  first-Made s i h = ground arith

  waits :
      (rounds fuel n : ℕ) (s : Store)
      → IsQueue s held cs
      → Made n s
      → (t : Store) × (create_loop (rounds + fuel) supply n s
          ≡ create_loop fuel supply (n + rounds) t)
        × IsQueue t held cs
        × Made (n + rounds) t
  waits zero fuel n s q m =
      let none_left : 0 + fuel ≡ fuel = omega arith in
      let here : n + 0 ≡ n = omega arith in (s, rw (none_left, here) refl, q, rw here m)
  waits (suc rounds) fuel n s q m =
      let (t, runs, still, e, _, same) =
        add_paket_full (q_max + 2) s held cs (supply.element_at n) (supply.packet_at n) q full in
      let t' = with_packet t held (cell_at supply (n + 1)) cs in
      let q' = packet-IsQueue t held (cell_at supply (n + 1)) cs still (fresh.supplied (n + 1)) in
      let (u, on, queue, all) = waits rounds fuel (n + 1) t' q' (Made-with_packet n s t same m) in
      let more : suc rounds + fuel ≡ suc (rounds + fuel) = omega arith in
      let next : n + suc rounds ≡ n + 1 + rounds = omega arith in
      (u, rw (more, next) (refused (rounds + fuel) n s t runs e ∙ on), queue, rw next all)

  -- With memory of its own from every malloc, on a full queue that no other thread is in: as many
  -- rounds as create_queue_element is looked at, it has not put a packet into the queue, and each
  -- round has left another packet allocated that nothing frees.
  pub create-waits :
      (rounds fuel : ℕ) (s : Store)
      → IsQueue s held cs
      → (t : Store) × (create_queue_element (rounds + fuel) supply s
          ≡ create_loop fuel supply rounds t)
        × IsQueue t held cs
        × Made rounds t
  unfolding create_queue_element
  create-waits rounds fuel s q =
      let new = cell_at supply 0 in
      let first = with_packet s held new cs in
      let q' = packet-IsQueue s held new cs q (fresh.supplied 0) in
      let (t, on, queue, all) = waits rounds fuel 0 first q' (first-Made s) in
      let from_0 : 0 + rounds ≡ rounds = omega arith in
      (t, rw (made 0 s) (rw from_0 at on), queue, rw from_0 at all)
