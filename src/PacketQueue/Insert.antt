-- ===== src/PacketQueue/Insert.antt =====
-- Putting a cell in at its place keeps what a queue of Praktikum 3/queue.c needs of its cells.
use ws2425_bs_praktikum.Base.{
  suc, ◌≡◌, ◌≢◌, refl, sym, ap, Bool, false, none, [], ◌∷◌, arith, length, inl, inr, Bool-cases,
}
use ws2425_bs_praktikum.Base.Int.{ℤ, ltb_ℤ, eqb_ℤ}
use ws2425_bs_praktikum.PacketQueue.Store.{Ptr}
use ws2425_bs_praktikum.PacketQueue.Cells.{
  Cell, Cells, Apart, Foreign, Distinct, Unlocked, Above, Ascending, find, insert, ◌<ℤ◌,
}

pub Apart-insert :
    (p : Ptr) (new : Cell) (cs : Cells) → p ≢ new.at → Apart p cs → Apart p (insert new cs)
Apart-insert p new [] h a = (h, tt)
Apart-insert p new (c ∷ cs) h (x, a) = elim (Bool-cases (ltb_ℤ new.num c.num)) [
  | inl less ↦ rw less (h, (x, a))
  | inr less ↦ rw less (x, Apart-insert p new cs h a)
]

pub Foreign-insert :
    (k : Ptr) (new : Cell) (cs : Cells) → k ≢ new.packet → Foreign k cs → Foreign k (insert new cs)
Foreign-insert k new [] h a = (h, tt)
Foreign-insert k new (c ∷ cs) h (x, a) = elim (Bool-cases (ltb_ℤ new.num c.num)) [
  | inl less ↦ rw less (h, (x, a))
  | inr less ↦ rw less (x, Foreign-insert k new cs h a)
]

pub Distinct-insert :
    (new : Cell) (cs : Cells)
    → Apart new.at cs
    → Foreign new.packet cs
    → Distinct cs
    → Distinct (insert new cs)
Distinct-insert new [] a f d = (tt, tt, tt)
Distinct-insert new (c ∷ cs) (x, a) (y, f) (da, df, d) = elim (Bool-cases (ltb_ℤ new.num c.num)) [
  | inl less ↦ rw less ((x, a), (y, f), (da, df, d))
  | inr less ↦ rw less (
    Apart-insert c.at new cs (λ e. x (sym e)) da,
    Foreign-insert c.packet new cs (λ e. y (sym e)) df,
    Distinct-insert new cs a f d,
  )
]

pub Unlocked-insert :
    (held : Ptr → Bool) (new : Cell) (cs : Cells)
    → held new.packet ≡ false
    → Unlocked held cs
    → Unlocked held (insert new cs)
Unlocked-insert held new [] h u = (h, tt)
Unlocked-insert held new (c ∷ cs) h (x, u) = elim (Bool-cases (ltb_ℤ new.num c.num)) [
  | inl less ↦ rw less (h, (x, u))
  | inr less ↦ rw less (x, Unlocked-insert held new cs h u)
]

pub Above-insert :
    (n : ℤ) (new : Cell) (cs : Cells) → n <ℤ new.num → Above n cs → Above n (insert new cs)
Above-insert n new [] h a = (h, tt)
Above-insert n new (c ∷ cs) h (x, a) = elim (Bool-cases (ltb_ℤ new.num c.num)) [
  | inl less ↦ rw less (h, (x, a))
  | inr less ↦ rw less (x, Above-insert n new cs h a)
]

Above-trans : (m n : ℤ) (cs : Cells) → m <ℤ n → Above n cs → Above m cs
Above-trans m n [] h a = tt
Above-trans m n (c ∷ cs) h (x, a) = (omega arith, Above-trans m n cs h a)

pub Ascending-insert :
    (new : Cell) (cs : Cells) → find new.num cs ≡ none → Ascending cs → Ascending (insert new cs)
Ascending-insert new [] n a = (tt, tt)
Ascending-insert new (c ∷ cs) n (x, a) =
    let other : eqb_ℤ new.num c.num ≡ false = ground arith in
    elim (Bool-cases (ltb_ℤ new.num c.num)) [
      | inl less ↦
          let below : new.num <ℤ c.num = ground arith in
          rw less ((below, Above-trans new.num c.num cs below x), (x, a))
      | inr less ↦
          let above : c.num <ℤ new.num = ground arith in
          rw less (Above-insert c.num new cs above x, Ascending-insert new cs (rw other at n) a)
    ]

pub length-insert : (new : Cell) (cs : Cells) → length (insert new cs) ≡ suc (length cs)
length-insert new [] = refl
length-insert new (c ∷ cs) = elim (Bool-cases (ltb_ℤ new.num c.num)) [
  | inl less ↦ rw less refl
  | inr less ↦ rw less (ap suc (length-insert new cs))
]
