-- ===== src/PacketQueue/Threads/Alone.antt =====
-- The pieces of a call of Praktikum 3/queue.c, run one after the other by one thread, and the whole
-- call.
use ws2425_bs_praktikum.Base.{
  ℕ, zero, suc, ◌+◌, not, ◌≡◌, ◌≢◌, refl, ap, sym, ◌∙◌, some, none, true, false, arith, ◌==◌,
  if◌then◌else◌, Bool-cases, Option-cases, inl, inr, ◌⊎◌,
}
use ws2425_bs_praktikum.Base.Int.{ℤ, pos, negsuc, ltb_ℤ, eqb_ℤ}
use ws2425_bs_praktikum.PacketQueue.Store.{
  Ptr, null, Element, Store, ok, blocked, fault, out_of_fuel, Run, Cmd, pure, and_then, ◌>>=◌, ◌>>◌,
  lock, unlock, load_element, load_num, update,
}
use ws2425_bs_praktikum.PacketQueue.Operations.{
  queue_head, q_max, add_paket, get_paket, add_loop, lock_unless_null, lock_second, unlink_first,
  unlock_at, reject, insert_before, append, unlock_unless_null, added,
}
use ws2425_bs_praktikum.PacketQueue.Ordered.{Call, add, get}
use ws2425_bs_praktikum.PacketQueue.Bounded.{call}
use ws2425_bs_praktikum.PacketQueue.Cells.{Cell}
use ws2425_bs_praktikum.PacketQueue.Threads.Blocks.{
  Pc, entering, walking, before_first, before_second, returned, answered, add_round, add_enter,
  add_next, get_last, get_enter, get_first, get_second, block,
}
use ws2425_bs_praktikum.PacketQueue.Threads.Alone.Rounds.{
  with_null, go_on, loop_body, loop_body-round, answer-ok, and_then-ok,
}
mod Rounds

-- A thread that runs on from its place, with so many pieces to go at most.
unfoldable pub alone : ℕ → Call → Pc → Cmd (ℤ × Ptr)
alone zero job p = λ _. out_of_fuel
alone (suc fuel) job (returned a) = pure a
alone (suc fuel) job p = block job p >>= alone fuel job

-- get_paket
get_pieces :
    (fuel : ℕ) (s : Store) → alone (suc (suc (suc (suc fuel)))) get entering s ≡ get_paket s
unfolding alone block get_paket lock_unless_null lock_second get_enter get_first get_second get_last
get_pieces fuel s = ground arith

module _ (new : Cell) where
  loop_of : ℕ → Ptr → Cmd ℤ
  loop_of fuel current = add_loop fuel new.at new.packet current

  loop_of-round :
      (fuel : ℕ) (current : Ptr) (s : Store)
      → (current == null) ≡ false
      → with_null (loop_of (suc fuel) current) s
        ≡ and_then (add_round new.at new.packet current s) (go_on (loop_of fuel) new.packet)
  unfolding loop_of add_loop loop_body with_null
  loop_of-round fuel current s live =
      rw live (loop_body-round (loop_of fuel) new.packet new.at current s)

  -- The next round and the rest of the loop, as pieces, if the rounds behind it are.
  next-alone :
      (fuel : ℕ) (next : Ptr) (u : Store) (a : ℤ × Ptr) (t : Store)
      → ((p : Pc) (v : Store)
          → go_on (loop_of fuel) new.packet p v ≡ ok a t
          → alone (suc fuel) (add new) p v ≡ ok a t)
      → with_null (loop_of (suc fuel) next) u ≡ ok a t
      → and_then
          ((if next == null then answered added else add_round new.at new.packet next) u)
          (alone (suc fuel) (add new))
        ≡ ok a t
  unfolding alone answered with_null loop_of add_loop
  next-alone fuel next u a t ih e = elim (Bool-cases (next == null)) [
    | inl last ↦ rw last (rw last at e)
    | inr more ↦ rw more (
        and_then-ok (add_round new.at new.packet next u) (go_on (loop_of fuel) new.packet)
          (alone (suc fuel) (add new)) a t ih (sym (loop_of-round fuel next u more) ∙ e))
  ]

  walking-alone :
      (fuel : ℕ) (current next_packet : Ptr) (s : Store) (a : ℤ × Ptr) (t : Store)
      → ((p : Pc) (u : Store)
          → go_on (loop_of fuel) new.packet p u ≡ ok a t
          → alone (suc fuel) (add new) p u ≡ ok a t)
      → go_on (loop_of (suc fuel)) new.packet (walking current next_packet) s ≡ ok a t
      → alone (suc (suc fuel)) (add new) (walking current next_packet) s ≡ ok a t
  unfolding go_on block add_next alone
  walking-alone fuel current next_packet s a t ih e = elim (Option-cases (s.packets next_packet)) [
    | inl gone ↦ absurd (ground arith)
    | inr (n, there) ↦ elim (Bool-cases (s.mutexes next_packet)) [
      | inl held ↦ absurd (ground arith)
      | inr free ↦ elim (Option-cases (s.elements current)) [
        | inl gone ↦ absurd (ground arith)
        | inr (c, here) ↦
            let u : Store = record s { mutexes = update s.mutexes next_packet true } in
            let ends : with_null (loop_of (suc fuel) c.next) u ≡ ok a t = ground arith in
            ground (arith, next-alone fuel c.next u a t ih ends)
      ]
    ]
  ]

  no_rounds :
      (current next_packet : Ptr) (s : Store) (a : ℤ × Ptr) (t : Store)
      → go_on (loop_of 0) new.packet (walking current next_packet) s ≢ ok a t
  unfolding go_on loop_of add_loop with_null
  no_rounds current next_packet s a t e = ground arith

  go_on-alone :
      (fuel : ℕ) (p : Pc) (s : Store) (a : ℤ × Ptr) (t : Store)
      → go_on (loop_of fuel) new.packet p s ≡ ok a t
      → alone (suc fuel) (add new) p s ≡ ok a t
  unfolding go_on alone
  go_on-alone fuel entering s a t e = absurd (cc)
  go_on-alone fuel (before_first k) s a t e = absurd (cc)
  go_on-alone fuel (before_second f k) s a t e = absurd (cc)
  go_on-alone fuel (returned b) s a t e = e
  go_on-alone zero (walking current k) s a t e = absurd (no_rounds current k s a t e)
  go_on-alone (suc fuel) (walking current k) s a t e =
      walking-alone fuel current k s a t (λ p u. go_on-alone fuel p u a t) e

  entered-alone :
      (fuel : ℕ) (s : Store) (a : ℤ × Ptr) (t : Store)
      → with_null (loop_of (suc fuel) queue_head) s ≡ ok a t
      → and_then (add_round new.at new.packet queue_head s) (alone (suc fuel) (add new)) ≡ ok a t
  entered-alone fuel s a t e =
      and_then-ok (add_round new.at new.packet queue_head s) (go_on (loop_of fuel) new.packet)
        (alone (suc fuel) (add new)) a t (λ p u. go_on-alone fuel p u a t)
        (sym (loop_of-round fuel queue_head s refl) ∙ e)

  add_pieces :
      (fuel : ℕ) (s : Store) (code : ℤ) (t : Store)
      → add_paket (suc fuel) new.at new.packet s ≡ ok code t
      → alone (suc (suc fuel)) (add new) entering s ≡ ok (code, null) t
  unfolding add_paket alone block add_enter answered with_null loop_of
  add_pieces fuel s code t e = elim (Option-cases (s.elements queue_head)) [
    | inl gone ↦ absurd (ground arith)
    | inr (h, here) ↦ elim (Option-cases (s.packets h.packet)) [
      | inl gone ↦ absurd (ground arith)
      | inr (n, there) ↦ elim (Bool-cases (s.mutexes h.packet)) [
        | inl held ↦ absurd (ground arith)
        | inr free ↦
            let u : Store = record s { mutexes = update s.mutexes h.packet true } in
            elim (Bool-cases (ltb_ℤ s.queue_index (pos q_max))) [
              | inl room ↦
                  let ends : loop_of (suc fuel) queue_head u ≡ ok code t = ground arith in
                  ground (
                    arith,
                    entered-alone fuel u (code, null) t
                        (ap (λ r. and_then r (λ c. pure (c, null))) ends),
                  )
              | inr full ↦ ground arith
            ]
      ]
    ]
  ]

-- A call of add_paket or get_paket that ends, with no other thread in the queue, is its pieces one
-- after the other: they end too, with the same answer and the same memory.
pub call-alone :
    (c : Call) (s : Store) (a : ℤ × Ptr) (t : Store)
    → call c s ≡ ok a t
    → alone (q_max + 3) c entering s ≡ ok a t
unfolding call
call-alone get s a t e = get_pieces 24 s ∙ e
call-alone (add new) s a t e =
    let (code, runs, same) = answer-ok (add_paket 27 new.at new.packet s) a t e in
    rw same (add_pieces new 26 s code t runs)
