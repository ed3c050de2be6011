-- ===== src/PacketQueue/Threads/Follows.antt =====
-- Cells of the queue of Praktikum 3/queue.c that stand next to one another, while others are put in
-- and taken out.
use ws2425_bs_praktikum.Base.{
  ◌≡◌, ◌≢◌, refl, sym, ap, ◌∙◌, ◌⊎◌, inl, inr, true, false, none, [], ◌∷◌, Bool-cases,
}
use ws2425_bs_praktikum.Base.Int.{ℤ, ltb_ℤ, eqb_ℤ}
use ws2425_bs_praktikum.PacketQueue.Store.{Ptr}
use ws2425_bs_praktikum.PacketQueue.Cells.{
  Cell, Cells, Apart, Foreign, Distinct, Above, find, insert, ◌<ℤ◌,
}

abbrev pub Among : Cell → Cells → Type 0
Among c [] = ⊥
Among c (x ∷ xs) = (c ≡ x) ⊎ Among c xs

-- `d` stands directly behind `c`.
abbrev pub Follows : (c d : Cell) → Cells → Type 0
Follows c d [] = ⊥
Follows c d (x ∷ []) = ⊥
Follows c d (x ∷ y ∷ r) = ((c ≡ x) × (d ≡ y)) ⊎ Follows c d (y ∷ r)

pub Follows-left : (c d : Cell) (l : Cells) → Follows c d l → Among c l
Follows-left c d [] f = f
Follows-left c d (x ∷ []) f = absurd f
Follows-left c d (x ∷ y ∷ r) (inl (e, _)) = inl e
Follows-left c d (x ∷ y ∷ r) (inr f) = inr (Follows-left c d (y ∷ r) f)

pub Follows-right : (c d : Cell) (l : Cells) → Follows c d l → Among d l
Follows-right c d [] f = f
Follows-right c d (x ∷ []) f = absurd f
Follows-right c d (x ∷ y ∷ r) (inl (_, e)) = inr (inl e)
Follows-right c d (x ∷ y ∷ r) (inr f) = inr (Follows-right c d (y ∷ r) f)

pub Apart-Among : (p : Ptr) (c : Cell) (l : Cells) → Apart p l → Among c l → p ≢ c.at
Apart-Among p c [] a m = absurd m
Apart-Among p c (x ∷ xs) (h, a) (inl e) = rw e h
Apart-Among p c (x ∷ xs) (h, a) (inr m) = Apart-Among p c xs a m

pub Foreign-Among : (k : Ptr) (c : Cell) (l : Cells) → Foreign k l → Among c l → k ≢ c.packet
Foreign-Among k c [] a m = absurd m
Foreign-Among k c (x ∷ xs) (h, a) (inl e) = rw e h
Foreign-Among k c (x ∷ xs) (h, a) (inr m) = Foreign-Among k c xs a m

-- Two cells with one address or one packet are one.
pub same_at : (c d : Cell) (l : Cells) → Distinct l → Among c l → Among d l → c.at ≡ d.at → c ≡ d
same_at c d [] u m n e = absurd m
same_at c d (x ∷ xs) u (inl p) (inl q) e = p ∙ sym q
same_at c d (x ∷ xs) (a, _, _) (inl p) (inr n) e =
    absurd (Apart-Among x.at d xs a n (ap (λ (z : Cell). z.at) (sym p) ∙ e))
same_at c d (x ∷ xs) (a, _, _) (inr m) (inl q) e =
    absurd (Apart-Among x.at c xs a m (ap (λ (z : Cell). z.at) (sym q) ∙ sym e))
same_at c d (x ∷ xs) (_, _, u) (inr m) (inr n) e = same_at c d xs u m n e

pub same_packet :
    (c d : Cell) (l : Cells) → Distinct l → Among c l → Among d l → c.packet ≡ d.packet → c ≡ d
same_packet c d [] u m n e = absurd m
same_packet c d (x ∷ xs) u (inl p) (inl q) e = p ∙ sym q
same_packet c d (x ∷ xs) (_, a, _) (inl p) (inr n) e =
    absurd (Foreign-Among x.packet d xs a n (ap (λ (z : Cell). z.packet) (sym p) ∙ e))
same_packet c d (x ∷ xs) (_, a, _) (inr m) (inl q) e =
    absurd (Foreign-Among x.packet c xs a m (ap (λ (z : Cell). z.packet) (sym q) ∙ sym e))
same_packet c d (x ∷ xs) (_, _, u) (inr m) (inr n) e = same_packet c d xs u m n e

abbrev pub Last : Cell → Cells → Type 0
Last a [] = ⊥
Last a (x ∷ []) = a ≡ x
Last a (x ∷ y ∷ r) = Last a (y ∷ r)

pub Last-Among : (a : Cell) (l : Cells) → Last a l → Among a l
Last-Among a [] h = h
Last-Among a (x ∷ []) h = inl h
Last-Among a (x ∷ y ∷ r) h = inr (Last-Among a (y ∷ r) h)

pub Among-insert : (c new : Cell) (l : Cells) → Among c (insert new l) → (c ≡ new) ⊎ Among c l
Among-insert c new [] (inl e) = inl e
Among-insert c new [] (inr m) = absurd m
Among-insert c new (x ∷ xs) m = elim (Bool-cases (ltb_ℤ new.num x.num)) [
  | inl less ↦ rw less at m
  | inr more ↦ elim (rw more at m) [
    | inl e ↦ inr (inl e)
    | inr m' ↦ elim (Among-insert c new xs m') [ inl e ↦ inl e | inr n ↦ inr (inr n) ]
  ]
]

Follows-behind : (c d x : Cell) (l : Cells) → Follows c d l → Follows c d (x ∷ l)
Follows-behind c d x [] f = absurd f
Follows-behind c d x (y ∷ r) f = inr f

-- Neighbours stay neighbours, unless the new number lies between theirs.
pub Follows-insert :
    (c d new : Cell) (l : Cells)
    → Follows c d l
    → (ltb_ℤ new.num c.num ≡ true) ⊎ (ltb_ℤ new.num d.num ≡ false)
    → Follows c d (insert new l)
Follows-insert c d new [] f h = absurd f
Follows-insert c d new (x ∷ []) f h = absurd f
Follows-insert c d new (x ∷ y ∷ r) f h = elim (Bool-cases (ltb_ℤ new.num x.num)) [
  | inl less ↦ rw less (inr f)
  | inr more ↦ elim f [
    | inl (e, g) ↦ elim h [
      | inl below ↦ absurd (cc (ap (λ (z : Cell). ltb_ℤ new.num z.num) e))
      | inr above ↦
          let there : ltb_ℤ new.num y.num ≡ false = rw g at above in rw (more, there) (inl (e, g))
    ]
    | inr f' ↦
        rw more (Follows-behind c d x (insert new (y ∷ r)) (Follows-insert c d new (y ∷ r) f' h))
  ]
]

-- A number that is in no cell is in none either that another was put among.
pub find-insert :
    (n : ℤ) (new : Cell) (l : Cells)
    → eqb_ℤ n new.num ≡ false
    → find n l ≡ none
    → find n (insert new l) ≡ none
find-insert n new [] other e = rw other refl
find-insert n new (x ∷ xs) other e = elim (Bool-cases (eqb_ℤ n x.num)) [
  | inl same ↦ absurd (cc (rw same at e))
  | inr differs ↦ elim (Bool-cases (ltb_ℤ new.num x.num)) [
    | inl less ↦ rw (less, other, differs) (rw differs at e)
    | inr more ↦ rw (more, differs) (find-insert n new xs other (rw differs at e))
  ]
]

-- Behind a number are only greater ones.
pub Above-Among : (n : ℤ) (c : Cell) (l : Cells) → Above n l → Among c l → n <ℤ c.num
Above-Among n c [] a m = absurd m
Above-Among n c (x ∷ xs) (h, a) (inl e) = rw e h
Above-Among n c (x ∷ xs) (h, a) (inr m) = Above-Among n c xs a m
