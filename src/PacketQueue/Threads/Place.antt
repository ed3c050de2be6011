-- ===== src/PacketQueue/Threads/Place.antt =====
-- What the calls of Praktikum 3/queue.c rely on at each place where they wait for a mutex: the
-- cells whose mutexes they hold, and what stands next to those.
use ws2425_bs_praktikum.Base.{
  ℕ, ◌<◌, ◌≤◌, ◌≡◌, ◌≢◌, ◌⊎◌, Bool, true, false, not, ◌&&◌, ◌||◌, none, some, [], ◌∷◌, arith, ◌==◌,
  length,
}
use ws2425_bs_praktikum.Base.Int.{ℤ, pos, negsuc, eqb_ℤ}
use ws2425_bs_praktikum.PacketQueue.Store.{Ptr, null, Store}
use ws2425_bs_praktikum.PacketQueue.Operations.{queue_head, q_max}
use ws2425_bs_praktikum.PacketQueue.Cells.{
  Cell, Cells, head_cell, Chain, Apart, Foreign, Distinct, Ascending, find, insert, ◌<ℤ◌,
}
use ws2425_bs_praktikum.PacketQueue.Ordered.{Call, add, get}
use ws2425_bs_praktikum.PacketQueue.Threads.Blocks.{
  Pc, entering, walking, before_first, before_second, returned,
}
use ws2425_bs_praktikum.PacketQueue.Threads.Measure.{IsRunning, todo}
use ws2425_bs_praktikum.PacketQueue.Threads.Follows.{Among, Follows}

-- The elements whose packets' mutexes a call holds.
abbrev pub owns : Pc → Ptr → Bool
owns (walking current _) p = p == current
owns (before_first _) p = p == queue_head
owns (before_second first _) p = p == queue_head || p == first
owns _ p = false

pub one : (p a : Ptr) → (p == a) ≡ true → p ≡ a
one p a h = ground arith

pub either : (p a b : Ptr) → (p == a || p == b) ≡ true → (p ≡ a) ⊎ (p ≡ b)
either p a b h = ground arith

pub at_one : (p a : Ptr) → p ≡ a → (p == a) ≡ true
at_one p a e = ground arith

pub at_self : (p a b : Ptr) → p ≡ b → (p == a || p == b) ≡ true
at_self p a b e = ground arith

-- A cell that is not in the queue, with memory, a packet and a number of its own.
abbrev pub IsFresh : Cell → Cells → Type 0
IsFresh new l =
    (new.at ≢ null)
    × Apart new.at l
    × Foreign new.packet l
    × (find new.num l ≡ none)
    × (negsuc 0 <ℤ new.num)

abbrev pub IsReady : Cell → Store → Type 0
IsReady new s = (s.packets new.packet ≡ some new.num) × (s.mutexes new.packet ≡ false)

abbrev pub Place : Call → Pc → Cells → Store → Type 0
Place _ (returned _) l s = Unit
Place (add new) entering l s = IsFresh new l × IsReady new s
Place (add new) (walking current next_packet) l s =
    (IsFresh new l × IsReady new s)
    × ((a : Cell) × (b : Cell) × Follows a b l
        × (a.at ≡ current)
        × (b.packet ≡ next_packet)
        × (a.num <ℤ new.num))
Place get entering l s = Unit
Place get (before_first first_packet) l s =
    (a : Cell) × Follows head_cell a l × (a.packet ≡ first_packet)
Place get (before_second first second_packet) l s =
    (a : Cell) × (b : Cell) × Follows head_cell a l
    × Follows a b l
    × (a.at ≡ first)
    × (b.packet ≡ second_packet)
Place _ _ l s = ⊥

-- What an answer says of the list of cells before and after: the packet was put in, or the list was
-- full; the first packet was taken, or there was none.
pub data Answers : Call → Cells → ℤ × Ptr → Cells → Type 0 where
  put : {new : Cell} {cs : Cells} → Answers (add new) cs (pos 0, null) (insert new cs)
  full : {new : Cell} {cs : Cells} → q_max ≤ length cs → Answers (add new) cs (negsuc 0, null) cs
  took : {c : Cell} {cs : Cells} → Answers get (c ∷ cs) (pos 0, c.packet) cs
  empty : Answers get [] (negsuc 0, null) []

-- The list changes when a call returns.
abbrev pub Told : Call → Cells → Pc → Cells → Type 0
Told c cs (returned a) cs' = Answers c cs a cs'
Told c cs _ cs' = cs' ≡ cs

-- Two calls with nothing in common but the queue.
abbrev pub Differ : Call → Call → Type 0
Differ (add x) (add y) = (x.at ≢ y.at) × (x.packet ≢ y.packet) × (eqb_ℤ x.num y.num ≡ false)
Differ _ _ = Unit

abbrev pub IsLinked : Store → Cells → Type 0
IsLinked s cs =
    Chain s null (head_cell ∷ cs)
    × Distinct (head_cell ∷ cs)
    × Ascending (head_cell ∷ cs)
    × (s.queue_index ≡ pos (length cs))

-- A move of one call from `p` to `p'`, as the other calls see it.
pub record Moves (c : Call) (p p' : Pc) (s t : Store) (cs cs' : Cells) : Type 0 where
  pub linked : IsLinked t cs'
  pub told : Told c cs p' cs'
  pub onward : IsRunning p' → (adders : ℕ) → todo adders cs' p' < todo adders cs p
  pub packets : (k : Ptr) → t.packets k ≡ s.packets k
  pub place : Place c p' (head_cell ∷ cs') t
  pub among :
      (x : Cell)
      → Among x cs'
      → Among x cs
        ⊎ ((new : Cell) × (x ≡ new)
            × (c ≡ add new)
            × ((q : Ptr) → owns p' q ≡ false)
            × IsFresh new (head_cell ∷ cs)
            × (s.mutexes new.packet ≡ false))
  pub fresh :
      (new : Cell)
      → Differ c (add new)
      → IsFresh new (head_cell ∷ cs)
      → IsFresh new (head_cell ∷ cs')
  pub frame : (k : Ptr) → Foreign k (head_cell ∷ cs) → t.mutexes k ≡ s.mutexes k
  pub follows :
      (a b : Cell)
      → Follows a b (head_cell ∷ cs)
      → owns p a.at ≡ false
      → s.mutexes a.packet ≡ true
      → Follows a b (head_cell ∷ cs')
  pub locks :
      (x : Cell)
      → Among x (head_cell ∷ cs)
      → Among x (head_cell ∷ cs')
      → t.mutexes x.packet ≡ (owns p' x.at || (not (owns p x.at) && s.mutexes x.packet))
  pub gained :
      (x : Cell)
      → Among x (head_cell ∷ cs)
      → owns p' x.at ≡ true
      → (owns p x.at ≡ true) ⊎ (s.mutexes x.packet ≡ false)
