-- ===== src/PacketQueue/Threads/Measure.antt =====
-- How many moves a call of Praktikum 3/queue.c has to go at most, with so many other calls that may
-- put a cell into its way.
use ws2425_bs_praktikum.Base.{
  ℕ, suc, ◌+◌, ◌≤◌, ◌<◌, ◌≡◌, ◌≢◌, inl, inr, true, false, [], ◌∷◌, arith, ◌==◌, if◌then◌else◌,
  length, Bool-cases,
}
use ws2425_bs_praktikum.Base.Int.{ltb_ℤ}
use ws2425_bs_praktikum.PacketQueue.Store.{Ptr}
use ws2425_bs_praktikum.PacketQueue.Cells.{Cell, Cells, head_cell, Distinct, insert}
use ws2425_bs_praktikum.PacketQueue.Insert.{length-insert}
use ws2425_bs_praktikum.PacketQueue.Threads.Blocks.{
  Pc, entering, walking, before_first, before_second, returned,
}
use ws2425_bs_praktikum.PacketQueue.Threads.Follows.{
  Follows, Follows-left, Follows-right, Apart-Among,
}

-- The call has not returned.
abbrev pub IsRunning : Pc → Type 0
IsRunning (returned _) = ⊥
IsRunning _ = Unit

-- The cells behind the one at an address.
abbrev pub behind : Ptr → Cells → ℕ
behind p [] = 0
behind p (x ∷ xs) = if p == x.at then length xs else behind p xs

abbrev pub todo : ℕ → Cells → Pc → ℕ
todo adders cs entering = length cs + adders + 4
todo adders cs (walking current _) = behind current (head_cell ∷ cs) + adders + 1
todo adders cs (before_first _) = 2
todo adders cs (before_second _ _) = 1
todo adders cs (returned _) = 0

pub todo-IsRunning : (adders : ℕ) (cs : Cells) (p : Pc) → IsRunning p → 0 < todo adders cs p
todo-IsRunning adders cs entering on = omega arith
todo-IsRunning adders cs (walking c k) on = omega arith
todo-IsRunning adders cs (before_first k) on = omega arith
todo-IsRunning adders cs (before_second f k) on = omega arith
todo-IsRunning adders cs (returned a) on = absurd on

behind-le : (p : Ptr) (l : Cells) → behind p l ≤ length l
behind-le p [] = omega arith
behind-le p (x ∷ xs) = ground (arith, behind-le p xs)

-- The next cell has fewer behind it.
pub behind-Follows :
    (a b : Cell) (l : Cells) → Distinct l → Follows a b l → behind b.at l < behind a.at l
behind-Follows a b [] u f = absurd f
behind-Follows a b (x ∷ []) u f = absurd f
behind-Follows a b (x ∷ y ∷ r) (u, _, _) (inl (e, g)) =
    let here : (a.at == x.at) ≡ true = rw e (ground arith) in
    let there : (b.at == x.at) ≡ false = let h = u.0 in rw g (ground arith) in
    let last : (b.at == y.at) ≡ true = rw g (ground arith) in rw (here, there, last) (omega arith)
behind-Follows a b (x ∷ y ∷ r) (u, _, v) (inr f) =
    let p = Apart-Among x.at a (y ∷ r) u (Follows-left a b (y ∷ r) f) in
    let q = Apart-Among x.at b (y ∷ r) u (Follows-right a b (y ∷ r) f) in
    let here : (a.at == x.at) ≡ false = ground arith in
    let there : (b.at == x.at) ≡ false = ground arith in
    rw (here, there) (behind-Follows a b (y ∷ r) v f)

pub behind-insert :
    (p : Ptr) (new : Cell) (l : Cells) → p ≢ new.at → behind p (insert new l) ≤ suc (behind p l)
behind-insert p new [] h = ground arith
behind-insert p new (x ∷ xs) h = elim (Bool-cases (ltb_ℤ new.num x.num)) [
  | inl less ↦ let other : (p == new.at) ≡ false = ground arith in rw (less, other) (omega arith)
  | inr more ↦ elim (Bool-cases (p == x.at)) [
    | inl here ↦ rw (more, here) (omega (arith, length-insert new xs))
    | inr other ↦ rw (more, other) (behind-insert p new xs h)
  ]
]

pub behind-drop : (p : Ptr) (h c : Cell) (r : Cells) → behind p (h ∷ r) ≤ behind p (h ∷ c ∷ r)
behind-drop p h c r = elim (Bool-cases (p == h.at)) [
  | inl here ↦ rw here (omega arith)
  | inr other ↦ elim (Bool-cases (p == c.at)) [
    | inl here ↦ rw (other, here) (behind-le p r)
    | inr more ↦ rw (other, more) (omega arith)
  ]
]
