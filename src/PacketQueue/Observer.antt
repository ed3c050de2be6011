-- ===== src/PacketQueue/Observer.antt =====
-- `print_queue_status` of Praktikum 3/observer.c, on a queue that no other thread is in.
use ws2425_bs_praktikum.Base.{
  ℕ, zero, suc, ◌+◌, ◌≡◌, Bool, true, false, Option, none, some, List, [], ◌∷◌, arith, ◌==◌,
  if◌then◌else◌,
}
use ws2425_bs_praktikum.Base.Int.{ℤ}
use ws2425_bs_praktikum.PacketQueue.Store.{
  Ptr, null, Store, ok, out_of_fuel, Cmd, pure, and_then, ◌>>=◌, ◌>>◌, update, load_element,
  load_num, lock, unlock,
}
use ws2425_bs_praktikum.PacketQueue.Operations.{queue_head, unlock_at, lock_unless_null}
use ws2425_bs_praktikum.PacketQueue.Cells.{Cell, Cells, Chain}

-- "| %d. packet: %d\n"
pub record Line : Type 0 where
  pub queue_index : ℕ
  pub num : ℤ

abbrev pub line : ℕ → ℤ → Line
line i n = record { queue_index = i; num = n }

-- One round of the loop at `current`: the line that it prints, and where the next round is, unless
-- the loop is left by `break`.
unfoldable pub print_round : (i : ℕ) (current : Ptr) → Cmd (Line × Option Ptr)
unfolding unlock_at lock_unless_null
print_round i current = do
  e ← load_element current
  num ← load_num e.packet
  if e.next == null then (do unlock e.packet; pure (line i num, none)) else (do
    n ← load_element e.next
    unlock_at n.prev
    lock_unless_null n.next
    pure (line i num, some e.next))

-- The loop, entered at `current` with the local queue_index at i: the lines that it prints.
unfoldable pub print_loop : ℕ → (i : ℕ) (current : Ptr) → Cmd (List Line)
unfolding print_round
print_loop zero i current = λ _. out_of_fuel
print_loop (suc fuel) i current =
    let rest = λ (next : Ptr). print_loop fuel (i + 1) next in
    if current == null then pure [] else do
      (l, next) ← print_round i current
      elim next [ none ↦ pure (l ∷ []) | some p ↦ do lines ← rest p; pure (l ∷ lines) ]

unfoldable pub lock_head : Cmd (Unit {0})
lock_head = do head ← load_element queue_head; lock head.packet

unfoldable pub print_queue_status : ℕ → Cmd (List Line)
unfolding lock_head print_loop
print_queue_status fuel = do lock_head; print_loop fuel 0 queue_head

-- The cells as lines.
abbrev pub lines_of : ℕ → Cells → List Line
lines_of i [] = []
lines_of i (c ∷ cs) = line i c.num ∷ lines_of (i + 1) cs

-- The mutex that the loop holds ahead of the current element.
abbrev pub ahead : Cells → Ptr → Bool
ahead [] k = false
ahead (d ∷ ds) k = k == d.packet

abbrev pub lock_ahead : Cells → (Ptr → Bool) → Ptr → Bool
lock_ahead [] m = m
lock_ahead (e ∷ es) m = update m e.packet true

module _ (s : Store) (c : Cell) where
  -- The mutex of c, held or not, is unlocked, and the one behind the next cell locked.
  abbrev pub step_store : Bool → Cells → Store
  step_store b ds = record s {
    mutexes = lock_ahead ds (if b then update s.mutexes c.packet false else s.mutexes);
    misuse = if b then s.misuse else suc s.misuse;
  }

  abbrev pub Opens : Cells → Type 0
  Opens [] = Unit
  Opens (e ∷ es) = s.mutexes e.packet ≡ false

  pub step_runs :
      (fuel i : ℕ) (b : Bool) (prev : Ptr) (d : Cell) (ds : Cells)
      → Chain s prev (c ∷ d ∷ ds)
      → s.mutexes c.packet ≡ b
      → Opens ds
      → print_loop (suc fuel) i c.at s
        ≡ and_then
            (print_loop fuel (i + 1) d.at (step_store b ds))
            (λ lines t. ok (line i c.num ∷ lines) t)
  unfolding print_loop
  step_runs fuel i true prev d [] chain h o = ground arith
  step_runs fuel i false prev d [] chain h o = ground arith
  step_runs fuel i true prev d (e ∷ es) chain h o = ground arith
  step_runs fuel i false prev d (e ∷ es) chain h o = ground arith

  pub last_runs :
      (fuel i : ℕ) (b : Bool) (prev : Ptr)
      → Chain s prev (c ∷ [])
      → s.mutexes c.packet ≡ b
      → print_loop (suc fuel) i c.at s ≡ ok (line i c.num ∷ []) (step_store b [])
  unfolding print_loop
  last_runs fuel i true prev chain h = ground arith
  last_runs fuel i false prev chain h = ground arith
