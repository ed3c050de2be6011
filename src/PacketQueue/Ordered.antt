-- ===== src/PacketQueue/Ordered.antt =====
-- What the queue of Praktikum 3/queue.c is to its users: at most QMAX packets in the order of their
-- numbers.
use mathlib.Core.List.{Perm, perm_middle}
use mathlib.Core.List.Perm
use ws2425_bs_praktikum.Base.{List, [], ◌∷◌, ◌++◌, leb, if◌then◌else◌, length, Bool-cases, inl, inr}
use ws2425_bs_praktikum.Base.Int.{ℤ, pos, negsuc, ltb_ℤ, eqb_ℤ}
use ws2425_bs_praktikum.PacketQueue.Store.{Ptr, null}
use ws2425_bs_praktikum.PacketQueue.Operations.{q_max}
use ws2425_bs_praktikum.PacketQueue.Cells.{Cell, Cells, insert}

-- A call: add_paket of a packet, with where malloc puts its element, or get_paket.
pub data Call : Type 0 where
  add : Cell → Call
  get : Call

-- A call on a list of cells: its answer and the list afterwards.
abbrev pub spec : Call → Cells → (ℤ × Ptr) × Cells
spec (add new) cs =
    if leb q_max (length cs) then ((negsuc 0, null), cs) else ((pos 0, null), insert new cs)
spec get [] = ((negsuc 0, null), [])
spec get (c ∷ cs) = ((pos 0, c.packet), cs)

unfoldable pub specs : List Call → Cells → List (ℤ × Ptr) × Cells
specs [] cs = ([], cs)
specs (c ∷ rest) cs =
    let (a, cs') = spec c cs in let (as_told, last) = specs rest cs' in (a ∷ as_told, last)

-- The packets that were put in, and those that were handed out.
abbrev pub accepted : List Call → List (ℤ × Ptr) → List Ptr
accepted (add new ∷ cs) ((code, _) ∷ as_told) =
    if eqb_ℤ code (pos 0) then new.packet ∷ accepted cs as_told else accepted cs as_told
accepted (get ∷ cs) (_ ∷ as_told) = accepted cs as_told
accepted _ _ = []

abbrev pub delivered : List Call → List (ℤ × Ptr) → List Ptr
delivered (get ∷ cs) ((code, packet) ∷ as_told) =
    if eqb_ℤ code (pos 0) then packet ∷ delivered cs as_told else delivered cs as_told
delivered (add _ ∷ cs) (_ ∷ as_told) = delivered cs as_told
delivered _ _ = []

abbrev pub packets_of : Cells → List Ptr
packets_of [] = []
packets_of (c ∷ cs) = c.packet ∷ packets_of cs

pub insert-perm :
    (c : Cell) (cs : Cells) → Perm (packets_of (insert c cs)) (c.packet ∷ packets_of cs)
insert-perm c [] = Perm.rfl
insert-perm c (d ∷ cs) = elim (Bool-cases (ltb_ℤ c.num d.num)) [
  | inl here ↦ rw here Perm.rfl
  | inr behind ↦ rw behind (
      Perm.trans (Perm.cons d.packet (insert-perm c cs))
        (Perm.swap c.packet d.packet (packets_of cs)))
]

-- Whatever the calls: what was there and what was put in is what was handed out and what is there.
pub specs-perm :
    (cs : List Call) (cells : Cells)
    → Perm
        (accepted cs (specs cs cells).0 ++ packets_of cells)
        (delivered cs (specs cs cells).0 ++ packets_of (specs cs cells).1)
unfolding specs
specs-perm [] cells = Perm.rfl
specs-perm (add new ∷ cs) cells = elim (Bool-cases (leb q_max (length cells))) [
  | inl full ↦ rw full (specs-perm cs cells)
  | inr room ↦
      let into = accepted cs (specs cs (insert new cells)).0 in
      rw room (
        Perm.trans (Perm.symm (perm_middle into (packets_of cells))) (
          Perm.trans (Perm.append_left into (Perm.symm (insert-perm new cells)))
            (specs-perm cs (insert new cells))))
]
specs-perm (get ∷ cs) [] = specs-perm cs []
specs-perm (get ∷ cs) (c ∷ cells) =
    Perm.trans (perm_middle (accepted cs (specs cs cells).0) (packets_of cells))
      (Perm.cons c.packet (specs-perm cs cells))
