-- ===== src/PacketQueue/Threads/Blocks.antt =====
-- add_paket and get_paket of Praktikum 3/queue.c in the pieces between two calls of
-- pthread_mutex_lock, and any number of calls whose pieces run in any order. Between line 73 and
-- line 91 of add_paket, where no mutex protects what follows, PacketQueue/Stolen has another
-- thread.
use ws2425_bs_praktikum.Base.{ℕ, not, ◌<◌, ◌≡◌, List, [], ◌∷◌, ◌==◌, if◌then◌else◌}
use ws2425_bs_praktikum.Base.Int.{ℤ, pos, negsuc, ltb_ℤ, eqb_ℤ}
use ws2425_bs_praktikum.Base.Threads.{put_at}
use ws2425_bs_praktikum.PacketQueue.Store.{
  Ptr, null, Store, ok, blocked, Cmd, pure, ◌>>=◌, ◌>>◌, load_element, load_num, lock, unlock,
  set_errno, read_index,
}
use ws2425_bs_praktikum.PacketQueue.Operations.{
  q_max, queue_full, queue_empty, queue_head, unlock_at, unlock_unless_null, added, reject,
  insert_before, append, unlink_first,
}
use ws2425_bs_praktikum.PacketQueue.Ordered.{Call, add, get}

-- Where a call stands: before its first pthread_mutex_lock, or before one of a mutex whose packet
-- is known, or returned with what get_paket set (NULL otherwise).
pub data Pc : Type 0 where
  entering : Pc
  walking : (current next_packet : Ptr) → Pc
  before_first : (first_packet : Ptr) → Pc
  before_second : (first second_packet : Ptr) → Pc
  returned : ℤ × Ptr → Pc

unfoldable pub answered : Cmd ℤ → Cmd Pc
answered m = m >>= λ code. pure (returned (code, null))

-- A round of the loop of add_paket, up to its lock of the next packet.
unfoldable pub add_round : (fresh packet current : Ptr) → Cmd Pc
unfolding answered
add_round fresh packet current = do
  num ← load_num packet
  e ← load_element current
  current_num ← load_num e.packet
  if eqb_ℤ num current_num
      then answered (reject packet e.prev)
      else if ltb_ℤ num current_num
      then answered (insert_before fresh packet current e.prev)
      else (do
        unlock_unless_null e.prev
        if e.next == null
            then answered (append fresh packet current e.prev)
            else (do n ← load_element e.next; pure (walking current n.packet)))

unfoldable pub add_enter : (fresh packet : Ptr) → Cmd Pc
unfolding answered
add_enter fresh packet = do
  head ← load_element queue_head
  lock head.packet
  i ← read_index
  if not (ltb_ℤ i (pos q_max))
      then answered (do unlock head.packet; set_errno queue_full; pure (negsuc 0))
      else add_round fresh packet queue_head

unfoldable pub add_next : (fresh packet current next_packet : Ptr) → Cmd Pc
unfolding answered
add_next fresh packet current next_packet = do
  lock next_packet
  e ← load_element current
  if e.next == null then answered added else add_round fresh packet e.next

-- get_paket behind its last lock.
unfoldable pub get_last : Cmd Pc
get_last = do
  h ← load_element queue_head
  if h.next == null
      then (do unlock_at queue_head; set_errno queue_empty; pure (returned (negsuc 0, null)))
      else (unlink_first h.next >>= λ a. pure (returned a))

unfoldable pub get_enter : Cmd Pc
get_enter = do
  h ← load_element queue_head
  lock h.packet
  if h.next == null
      then get_last
      else (do first ← load_element h.next; pure (before_first first.packet))

unfoldable pub get_first : (first_packet : Ptr) → Cmd Pc
get_first first_packet = do
  lock first_packet
  h ← load_element queue_head
  first ← load_element h.next
  if first.next == null
      then get_last
      else (do second ← load_element first.next; pure (before_second h.next second.packet))

unfoldable pub get_second : (second_packet : Ptr) → Cmd Pc
get_second second_packet = do lock second_packet; get_last

-- A call goes on to its next lock, or to its end. A call that has returned does no more.
unfoldable pub block : Call → Pc → Cmd Pc
block (add new) entering = add_enter new.at new.packet
block (add new) (walking current next_packet) = add_next new.at new.packet current next_packet
block get entering = get_enter
block get (before_first first_packet) = get_first first_packet
block get (before_second first second_packet) = get_second second_packet
block _ _ = λ _. blocked

pub record System : Type 0 where
  pub store : Store
  pub pc : ℕ → Pc

-- The calls that have returned, the last one first, with their answers.
abbrev pub Log : Type 0
Log = List (ℕ × ℤ × Ptr)

abbrev pub logged : ℕ → Pc → Log → Log
logged i (returned (code, packet)) log = (i, code, packet) ∷ log
logged i _ log = log

-- What n calls, each made by a thread of its own at any time, reach from a store.
pub data Reach (n : ℕ) (job : ℕ → Call) (s : Store) : System → Log → Type 0 where
  start : Reach n job s (record { store = s; pc = λ _. entering }) []
  later :
      {y : System} {log : Log}
      → Reach n job s y log
      → (i : ℕ) {p : Pc} {t : Store} → i < n
      → block (job i) (y.pc i) y.store ≡ ok p t
      → Reach n job s (record { store = t; pc = put_at y.pc i p }) (logged i p log)
