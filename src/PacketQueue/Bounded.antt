-- ===== src/PacketQueue/Bounded.antt =====
-- The queue of Praktikum 3/queue.c as what its users see: at most QMAX packets in the order of
-- their numbers. A sequence of calls on the memory does what the same calls do to the list of
-- cells.
use ws2425_bs_praktikum.Base.{
  ◌+◌, ◌≡◌, ◌≢◌, refl, ap, ◌∙◌, Bool, false, ◌||◌, Option, none, some, List, [], ◌∷◌, ◌++◌, arith,
  ◌==◌, leb, length, Bool-cases, inl, inr,
}
use ws2425_bs_praktikum.Base.Int.{ℤ, negsuc}
use ws2425_bs_praktikum.PacketQueue.Store.{Ptr, null, Store, ok, Cmd, pure, and_then, ◌>>=◌}
use ws2425_bs_praktikum.PacketQueue.Operations.{q_max, add_paket, get_paket}
use ws2425_bs_praktikum.PacketQueue.Cells.{
  Cell, Cells, head_cell, Apart, Foreign, IsQueue, find, ◌<ℤ◌,
}
use ws2425_bs_praktikum.PacketQueue.Get.{get_paket_empty, get_paket_first}
use ws2425_bs_praktikum.PacketQueue.Add.{IsNew, add_paket-insert}
use ws2425_bs_praktikum.PacketQueue.Full.{add_paket_full}
use ws2425_bs_praktikum.PacketQueue.Ordered.{
  Call, add, get, spec, specs, accepted, delivered, packets_of, specs-perm,
}
use mathlib.Core.List.{Perm}

abbrev pub answer : Cmd ℤ → Cmd (ℤ × Ptr)
answer m = m >>= λ code. pure (code, null)

-- One call, with a round of the loop for each element that there can be, the head and one more.
unfoldable pub call : Call → Cmd (ℤ × Ptr)
call (add new) = answer (add_paket (q_max + 2) new.at new.packet)
call get = get_paket

-- The calls in their order: what each returns, NULL for a packet that get_paket did not set.
unfoldable pub calls : List Call → Cmd (List (ℤ × Ptr))
unfolding call
calls [] = pure []
calls (c ∷ cs) = call c >>= λ a. (calls cs >>= λ rest. pure (a ∷ rest))

-- The mutexes that are held: get_paket leaves that of the packet it takes.
abbrev pub held_after : Call → Cells → (Ptr → Bool) → Ptr → Bool
held_after get (c ∷ cs) held = λ k. k == c.packet || held k
held_after _ _ held = held

unfoldable pub held_afters : List Call → Cells → (Ptr → Bool) → Ptr → Bool
held_afters [] cs held = held
held_afters (c ∷ rest) cs held = held_afters rest (spec c cs).1 (held_after c cs held)

-- What a caller of add_paket keeps to, when the call comes: a packet of its own, that was not in
-- the queue before, with a number that is not negative and not in the queue; and memory of its own
-- from malloc.
abbrev pub Keeps : (Ptr → Option ℤ) → (Ptr → Bool) → Cells → List Call → Type 0
Keeps packets held cs [] = Unit
Keeps packets held cs (add new ∷ rest) =
    (new.at ≢ null)
    × Apart new.at (head_cell ∷ cs)
    × (packets new.packet ≡ some new.num)
    × (negsuc 0 <ℤ new.num)
    × (held new.packet ≡ false)
    × Foreign new.packet (head_cell ∷ cs)
    × (find new.num cs ≡ none)
    × Keeps packets (held_after (add new) cs held) (spec (add new) cs).1 rest
Keeps packets held cs (get ∷ rest) = Keeps packets (held_after get cs held) (spec get cs).1 rest

-- One call: the answer, and a memory that holds the new list with the same packets.
pub record Steps (s : Store) (held : Ptr → Bool) (c : Call) (cs : Cells) : Type 0 where
  pub after : Store
  pub runs : call c s ≡ ok (spec c cs).0 after
  pub queue : IsQueue after (held_after c cs held) (spec c cs).1
  pub packets : (k : Ptr) → after.packets k ≡ s.packets k

add-Steps :
    (s : Store) (held : Ptr → Bool) (new : Cell) (cs : Cells)
    → IsQueue s held cs
    → IsNew s held new cs
    → find new.num cs ≡ none
    → Steps s held (add new) cs
unfolding call
add-Steps s held new cs q n f = elim (Bool-cases (leb q_max (length cs))) [
  | inl full ↦
      let (t, runs, queue, errno, misuse, packets) =
        add_paket_full (q_max + 2) s held cs new.at new.packet q (ground arith) in
      record {
        after = t;
        runs = rw full (ap (λ r. and_then r (λ code u. ok (code, null) u)) runs);
        queue = rw full queue;
        packets = packets;
      }
  | inr room ↦
      let (t, runs, queue, packets) =
        add_paket-insert (q_max + 2) s held new cs q n (ground arith) (ground arith) f in
      record {
        after = t;
        runs = rw room (ap (λ r. and_then r (λ code u. ok (code, null) u)) runs);
        queue = rw room queue;
        packets = packets;
      }
]

get-Steps : (s : Store) (held : Ptr → Bool) (cs : Cells) → IsQueue s held cs → Steps s held get cs
unfolding call
get-Steps s held [] q =
    let (t, runs, queue, errno, misuse, packets) = get_paket_empty s held q in
    record { after = t; runs = runs; queue = queue; packets = packets }
get-Steps s held (c ∷ cs) q =
    let (t, runs, taken, smallest) = get_paket_first s held c cs q in
    record { after = t; runs = runs; queue = taken.queue; packets = taken.packets }

-- The next call of a caller that keeps to it, and what is left to keep.
pub step :
    (s : Store) (packets : Ptr → Option ℤ) (held : Ptr → Bool) (c : Call) (rest : List Call)
    (cs : Cells)
    → ((k : Ptr) → s.packets k ≡ packets k)
    → IsQueue s held cs
    → Keeps packets held cs (c ∷ rest)
    → Steps s held c cs × Keeps packets (held_after c cs held) (spec c cs).1 rest
step s packets held (add new) rest cs same q (live, apart, num, above, free, foreign, other, k) =
    let n : IsNew s held new cs = record {
      live = live;
      apart = apart;
      num = same new.packet ∙ num;
      positive = above;
      free = free;
      foreign = foreign;
    } in
    (add-Steps s held new cs q n other, k)
step s packets held get rest cs same q k = (get-Steps s held cs q, k)

calls_run :
    (cs : List Call) (s : Store) (packets : Ptr → Option ℤ) (held : Ptr → Bool) (cells : Cells)
    → ((k : Ptr) → s.packets k ≡ packets k)
    → IsQueue s held cells
    → Keeps packets held cells cs
    → (t : Store) × (calls cs s ≡ ok (specs cs cells).0 t)
      × IsQueue t (held_afters cs cells held) (specs cs cells).1
unfolding calls specs held_afters
calls_run [] s packets held cells same q k = (s, refl, q)
calls_run (c ∷ cs) s packets held cells same q k =
    let (now, left) = step s packets held c cs cells same q k in
    let (t, runs, queue) =
      calls_run cs now.after packets (held_after c cells held) (spec c cells).1
        (λ p. now.packets p ∙ same p) now.queue left in
    (
      t,
      ap (λ r. and_then r (λ a u. (calls cs >>= λ rest. pure (a ∷ rest)) u)) now.runs
          ∙ ap (λ r. and_then r (λ rest u. ok ((spec c cells).0 ∷ rest) u)) runs,
      queue,
    )

-- Any sequence of calls of add_paket and get_paket, one after the other, on a queue that no other
-- thread is in, by callers that keep to the rules (each packet its own, its number not negative and
-- not yet in the queue, memory from malloc): each call ends, and returns what the same call on the
-- bounded ordered list returns; a full queue refuses, an empty one has nothing. The memory
-- afterwards is a queue that holds the list, and no packet is lost or doubled: those that were in
-- the queue and those accepted are those delivered and those still in the queue.
pub calls-specs :
    (cs : List Call) (s : Store) (held : Ptr → Bool) (cells : Cells)
    → IsQueue s held cells
    → Keeps s.packets held cells cs
    → (t : Store) × (as_told : List (ℤ × Ptr)) × (last : Cells) × (calls cs s ≡ ok as_told t)
      × IsQueue t (held_afters cs cells held) last
      × (specs cs cells ≡ (as_told, last))
      × Perm (accepted cs as_told ++ packets_of cells) (delivered cs as_told ++ packets_of last)
calls-specs cs s held cells q k =
    let (t, runs, queue) = calls_run cs s s.packets held cells (λ p. refl) q k in
    (t, (specs cs cells).0, (specs cs cells).1, runs, queue, refl, specs-perm cs cells)
