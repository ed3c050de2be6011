-- ===== src/PacketQueue/Threads/Gap.antt =====
-- Neighbours in a queue of Praktikum 3/queue.c while a number is put in at its place.
use ws2425_bs_praktikum.Base.{◌≡◌, ◌≢◌, sym, ◌∙◌, ◌⊎◌, inl, inr, true, false, [], ◌∷◌, arith}
use ws2425_bs_praktikum.Base.Int.{ltb_ℤ}
use ws2425_bs_praktikum.PacketQueue.Cells.{Cell, Cells, Ascending, insert, ◌<ℤ◌}
use ws2425_bs_praktikum.PacketQueue.Threads.Follows.{
  Among, Follows, Last, Last-Among, Follows-left, Follows-right, Above-Among, Follows-insert,
}

-- Behind a cell are only greater numbers.
pub not_before :
    (y c : Cell) (r : Cells) → Ascending (y ∷ r) → Among c (y ∷ r) → ltb_ℤ c.num y.num ≡ false
not_before y c r (a, _) (inl e) = rw e (ground arith)
not_before y c r (a, _) (inr m) = let h = Above-Among y.num c r a m in ground arith

gap :
    (c d c' d' new : Cell) (l : Cells)
    → Ascending l
    → Follows c d l
    → Follows c' d' l
    → c' ≢ c
    → c.num <ℤ new.num
    → new.num <ℤ d.num
    → (ltb_ℤ new.num c'.num ≡ true) ⊎ (ltb_ℤ new.num d'.num ≡ false)
gap c d c' d' new [] a f g ne h k = absurd f
gap c d c' d' new (x ∷ []) a f g ne h k = absurd f
gap c d c' d' new (x ∷ y ∷ r) a (inl (p, _)) (inl (q, _)) ne h k = absurd (ne (q ∙ sym p))
gap c d c' d' new (x ∷ y ∷ r) (_, a) (inl (_, p)) (inr g) ne h k =
    let above = not_before y c' r a (Follows-left c' d' (y ∷ r) g) in
    let k' : new.num <ℤ y.num = rw p at k in inl (ground arith)
gap c d c' d' new (x ∷ y ∷ r) (_, a) (inr f) (inl (_, q)) ne h k =
    let above = not_before y c r a (Follows-left c d (y ∷ r) f) in inr (rw q (ground arith))
gap c d c' d' new (x ∷ y ∷ r) (_, a) (inr f) (inr g) ne h k = gap c d c' d' new (y ∷ r) a f g ne h k

-- Put in between two neighbours: the others stay.
pub Follows-others :
    (c d c' d' new : Cell) (l : Cells)
    → Ascending l
    → Follows c d l
    → Follows c' d' l
    → c' ≢ c
    → c.num <ℤ new.num
    → new.num <ℤ d.num
    → Follows c' d' (insert new l)
Follows-others c d c' d' new l a f g ne h k =
    Follows-insert c' d' new l g (gap c d c' d' new l a f g ne h k)

below-Last :
    (c d new : Cell) (l : Cells)
    → Ascending l
    → Last c l
    → Among d l
    → c.num <ℤ new.num
    → ltb_ℤ new.num d.num ≡ false
below-Last c d new [] a e m h = absurd m
below-Last c d new (x ∷ []) a e (inl e') h = rw (e' ∙ sym e) (ground arith)
below-Last c d new (x ∷ []) a e (inr m) h = absurd m
below-Last c d new (x ∷ y ∷ r) (above, _) e (inl e') h =
    let below = Above-Among x.num c (y ∷ r) above (Last-Among c (y ∷ r) e) in rw e' (ground arith)
below-Last c d new (x ∷ y ∷ r) (_, a) e (inr m) h = below-Last c d new (y ∷ r) a e m h

-- Put in at the end: all neighbours stay.
pub Follows-Last :
    (c c' d' new : Cell) (l : Cells)
    → Ascending l
    → Last c l
    → Follows c' d' l
    → c.num <ℤ new.num
    → Follows c' d' (insert new l)
Follows-Last c c' d' new l a e g h =
    Follows-insert c' d' new l g (inr (below-Last c d' new l a e (Follows-right c' d' l g) h))
