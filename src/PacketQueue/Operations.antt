-- ===== src/PacketQueue/Operations.antt =====
-- `add_paket` and `get_paket` of Praktikum 3/queue.c.
use ws2425_bs_praktikum.Base.{ℕ, zero, suc, not, ◌==◌, if◌then◌else◌}
use ws2425_bs_praktikum.Base.Int.{ℤ, pos, negsuc, ◌+ℤ◌, ◌-ℤ◌, ltb_ℤ, eqb_ℤ}
use ws2425_bs_praktikum.PacketQueue.Store.{
  Ptr, null, element, out_of_fuel, Cmd, pure, ◌>>=◌, ◌>>◌, load_element, load_num, new_element,
  set_next, set_prev, free_element, free_packet, lock, unlock, unlock_copy, read_mutex, set_errno,
  read_index, write_index,
}

abbrev pub q_max : ℕ
q_max = 25

abbrev pub queue_full : ℕ
queue_full = 1

abbrev pub queue_empty : ℕ
queue_empty = 2

abbrev pub already_in_queue : ℕ
already_in_queue = 3

-- The addresses of the static queue_head and of its packet.
abbrev pub queue_head : Ptr
queue_head = 1

abbrev pub empty_packet : Ptr
empty_packet = 1

-- `pthread_mutex_unlock(&p->packet->mutex)` if p is not NULL.
unfoldable pub unlock_at : Ptr → Cmd (Unit {0})
unlock_at p = load_element p >>= λ e. unlock e.packet

unfoldable pub unlock_unless_null : Ptr → Cmd (Unit {0})
unfolding unlock_at
unlock_unless_null p = if p == null then pure tt else unlock_at p

-- Behind the loop of add_paket.
unfoldable pub added : Cmd ℤ
added = do i ← read_index; write_index (i +ℤ pos 1); pure (pos 0)

-- The number is already in the queue, at `current` with the given predecessor.
unfoldable pub reject : (packet prev : Ptr) → Cmd ℤ
unfolding unlock_unless_null
reject packet prev = do
  unlock_unless_null prev
  held ← read_mutex packet
  unlock_copy held
  free_packet packet
  set_errno already_in_queue
  pure (negsuc 0)

-- `fresh` is what malloc gives.
unfoldable pub insert_before : (fresh packet current prev : Ptr) → Cmd ℤ
unfolding unlock_at added
insert_before fresh packet current prev = do
  new_element fresh (element packet current prev)
  set_next prev fresh
  set_prev current fresh
  new ← load_element fresh
  unlock_at new.prev
  unlock_at current
  added

unfoldable pub append : (fresh packet current prev : Ptr) → Cmd ℤ
unfolding unlock_at unlock_unless_null added
append fresh packet current prev = do
  new_element fresh (element packet null current)
  set_next current fresh
  unlock_unless_null prev
  unlock_at current
  added

-- The loop of add_paket.
unfoldable pub add_loop : ℕ → (fresh packet current : Ptr) → Cmd ℤ
unfolding unlock_unless_null reject insert_before append
add_loop zero fresh packet current = λ _. out_of_fuel
add_loop (suc fuel) fresh packet current =
    let rest = λ (next : Ptr). add_loop fuel fresh packet next in
    if current == null then added else do
      num ← load_num packet
      e ← load_element current
      current_num ← load_num e.packet
      if eqb_ℤ num current_num
          then reject packet e.prev
          else if ltb_ℤ num current_num
          then insert_before fresh packet current e.prev
          else (do
            unlock_unless_null e.prev
            if e.next == null
                then append fresh packet current e.prev
                else (do n ← load_element e.next; lock n.packet; rest e.next))

unfoldable pub add_paket : ℕ → (fresh packet : Ptr) → Cmd ℤ
add_paket fuel fresh packet = do
  head ← load_element queue_head
  lock head.packet
  i ← read_index
  if not (ltb_ℤ i (pos q_max))
      then (do unlock head.packet; set_errno queue_full; pure (negsuc 0))
      else add_loop fuel fresh packet queue_head

-- The locks that get_paket takes besides the head's.
unfoldable pub lock_unless_null : Ptr → Cmd (Unit {0})
lock_unless_null p = if p == null then pure tt else (load_element p >>= λ e. lock e.packet)

unfoldable pub lock_second : Ptr → Cmd (Unit {0})
unfolding lock_unless_null
lock_second first =
    if first == null then pure tt else (load_element first >>= λ e. lock_unless_null e.next)

-- `first->next->prev = &queue_head` and the unlock of what is then the first packet.
unfoldable pub relink_next : (next : Ptr) → Cmd (Unit {0})
unfolding unlock_at
relink_next next =
    if next == null
    then pure tt
    else (do set_prev next queue_head; head ← load_element queue_head; unlock_at head.next)

-- The first element leaves the queue.
unfoldable pub unlink_first : (first : Ptr) → Cmd (ℤ × Ptr)
unfolding unlock_at relink_next
unlink_first first = do
  e ← load_element first
  set_next queue_head e.next
  relink_next e.next
  i ← read_index
  write_index (i -ℤ pos 1)
  held ← read_mutex e.packet
  free_element first
  unlock_copy held
  unlock_at queue_head
  pure (pos 0, e.packet)

-- The result, and what *r_packet is set to; NULL stands for a pointer left alone.
unfoldable pub get_paket : Cmd (ℤ × Ptr)
unfolding lock_unless_null lock_second unlink_first unlock_at
get_paket = do
  h ← load_element queue_head
  lock h.packet
  lock_unless_null h.next
  lock_second h.next
  if h.next == null
      then (do unlock_at queue_head; set_errno queue_empty; pure (negsuc 0, null))
      else unlink_first h.next
