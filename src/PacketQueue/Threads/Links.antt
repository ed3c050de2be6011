-- ===== src/PacketQueue/Threads/Links.antt =====
-- The chain of queue elements of Praktikum 3/queue.c around two neighbours, and after one was put
-- in between them or behind the last.
use ws2425_bs_praktikum.Base.{
  ◌≡◌, ◌≢◌, refl, sym, ◌∙◌, ◌⊎◌, inl, inr, true, false, Option, none, some, [], ◌∷◌, arith,
}
use ws2425_bs_praktikum.Base.Int.{ℤ, ltb_ℤ}
use ws2425_bs_praktikum.PacketQueue.Store.{Ptr, null, Element, element, Store}
use ws2425_bs_praktikum.PacketQueue.Cells.{
  Cell, Cells, first_at, Chain, Apart, Distinct, Ascending, insert, ◌<ℤ◌,
}
use ws2425_bs_praktikum.PacketQueue.Threads.Follows.{
  Last, Last-Among, Follows, Follows-left, Follows-right, Apart-Among,
}
use ws2425_bs_praktikum.PacketQueue.Threads.Gap.{not_before}

-- The cell behind the second of two neighbours, or the end.
abbrev pub Behind : Store → Cell → Ptr → Cells → Type 0
Behind s b n l =
    ((n ≡ null) × Last b l)
    ⊎ ((e : Cell) × Follows b e l
        × (n ≡ e.at)
        × (e.at ≢ null)
        × (m : Ptr) × (s.elements e.at ≡ some (element e.packet m b.at)))

Behind-up :
    (s : Store) (b x y : Cell) (n : Ptr) (r : Cells)
    → Behind s b n (y ∷ r)
    → Behind s b n (x ∷ y ∷ r)
Behind-up s b x y n r (inl h) = inl h
Behind-up s b x y n r (inr (e, f, g, live, m, h)) = inr (e, inr f, g, live, m, h)

first-Behind : (s : Store) (b : Cell) (r : Cells) → Chain s b.at r → Behind s b (first_at r) (b ∷ r)
first-Behind s b [] c = inl (refl, refl)
first-Behind s b (e ∷ r) (live, here, num, rest) =
    inr (e, inl (refl, refl), refl, live, first_at r, here)

pub record Links (s : Store) (a b : Cell) (l : Cells) : Type 0 where
  pub live : a.at ≢ null
  pub prev : Ptr
  pub left : s.elements a.at ≡ some (element a.packet b.at prev)
  pub left_num : s.packets a.packet ≡ some a.num
  pub right_live : b.at ≢ null
  pub next : Ptr
  pub right : s.elements b.at ≡ some (element b.packet next a.at)
  pub right_num : s.packets b.packet ≡ some b.num
  pub behind : Behind s b next l

Links-up : (s : Store) (a b x y : Cell) (r : Cells) → Links s a b (y ∷ r) → Links s a b (x ∷ y ∷ r)
Links-up s a b x y r k = record {
  live = k.live;
  prev = k.prev;
  left = k.left;
  left_num = k.left_num;
  right_live = k.right_live;
  next = k.next;
  right = k.right;
  right_num = k.right_num;
  behind = Behind-up s b x y k.next r k.behind;
}

first-Links :
    (s : Store) (prev : Ptr) (x y : Cell) (r : Cells)
    → Chain s prev (x ∷ y ∷ r)
    → Links s x y (x ∷ y ∷ r)
first-Links s prev x y r (live, here, num, (live', here', num', rest)) = record {
  live = live;
  prev = prev;
  left = here;
  left_num = num;
  right_live = live';
  next = first_at r;
  right = here';
  right_num = num';
  behind = Behind-up s y x y (first_at r) r (first-Behind s y r rest);
}

pub Follows-Links :
    (s : Store) (prev : Ptr) (a b : Cell) (l : Cells)
    → Chain s prev l
    → Follows a b l
    → Links s a b l
Follows-Links s prev a b [] c f = absurd f
Follows-Links s prev a b (x ∷ []) c f = absurd f
Follows-Links s prev a b (x ∷ y ∷ r) c (inl (e, g)) = rw (e, g) (first-Links s prev x y r c)
Follows-Links s prev a b (x ∷ y ∷ r) (_, _, _, c) (inr f) =
    Links-up s a b x y r (Follows-Links s x.at a b (y ∷ r) c f)

-- The elements after `new` was linked in behind `a`.
abbrev pub with_next : Ptr → Option Element → Option Element
with_next p none = none
with_next p (some e) = some (record e { next = p })

abbrev pub with_prev : Ptr → Option Element → Option Element
with_prev p none = none
with_prev p (some e) = some (record e { prev = p })

past_both : (a n x : ℤ) → ltb_ℤ a x ≡ false → a <ℤ n → ltb_ℤ n x ≡ false
past_both a n x here h = ground arith

module _ (s t : Store) (new : Cell) (num : t.packets new.packet ≡ some new.num)
    (live : new.at ≢ null) (packets : (k : Ptr) → t.packets k ≡ s.packets k) where
  module _ (a b : Cell) (fresh : t.elements new.at ≡ some (element new.packet b.at a.at))
      (left : t.elements a.at ≡ with_next new.at (s.elements a.at))
      (right : t.elements b.at ≡ with_prev new.at (s.elements b.at))
      (others : (p : Ptr) → p ≢ a.at → p ≢ b.at → p ≢ new.at → t.elements p ≡ s.elements p) where
    rest-Chain :
        (l : Cells) (prev : Ptr)
        → Apart a.at l
        → Apart b.at l
        → Apart new.at l
        → Chain s prev l
        → Chain t prev l
    rest-Chain [] prev x y z c = tt
    rest-Chain (c ∷ cs) prev (x, xs) (y, ys) (z, zs) (live, here, num, rest) = (
      live,
      others c.at (λ e. x (sym e)) (λ e. y (sym e)) (λ e. z (sym e)) ∙ here,
      packets c.packet ∙ num,
      rest-Chain cs c.at xs ys zs rest,
    )

    pub Chain-between :
        (l : Cells) (prev : Ptr)
        → Distinct l
        → Ascending l
        → Apart new.at l
        → a.num <ℤ new.num
        → new.num <ℤ b.num
        → Follows a b l
        → Chain s prev l
        → Chain t prev (insert new l)
    Chain-between [] prev d u z h k f c = absurd f
    Chain-between (x ∷ []) prev d u z h k f c = absurd f
    Chain-between (x ∷ y ∷ r) prev ((_, d), _, (d', _, _)) u (_, (_, z)) h k (inl (e, g))
          (lx, hx, nx, (ly, hy, ny, rest)) =
        let h' : x.num <ℤ new.num = rw e at h in
        let past : ltb_ℤ new.num x.num ≡ false = ground arith in
        let k' : new.num <ℤ y.num = rw g at k in
        let here : ltb_ℤ new.num y.num ≡ true = ground arith in
        let left' : t.elements x.at ≡ with_next new.at (s.elements x.at) = rw e at left in
        let right' : t.elements y.at ≡ with_prev new.at (s.elements y.at) = rw g at right in
        let fresh' : t.elements new.at ≡ some (element new.packet y.at x.at) = rw (e, g) at fresh in
        rw (past, here)
          (
            lx,
            left' ∙ rw hx refl,
            packets x.packet ∙ nx,
            (
              live,
              fresh',
              num,
              (
                ly,
                right' ∙ rw hy refl,
                packets y.packet ∙ ny,
                rest-Chain r y.at (rw e d) (rw g d') z rest,
              ),
            ),
          )
    Chain-between (x ∷ y ∷ r) prev (d, _, d') (u, u') (z, z') h k (inr f) (lx, hx, nx, rest) =
        let here = not_before y a r u' (Follows-left a b (y ∷ r) f) in
        let up = not_before x a (y ∷ r) (u, u') (inr (Follows-left a b (y ∷ r) f)) in
        let past = past_both a.num new.num y.num here h in
        let over = past_both a.num new.num x.num up h in
        let p = Apart-Among x.at a (y ∷ r) d (Follows-left a b (y ∷ r) f) in
        let q = Apart-Among x.at b (y ∷ r) d (Follows-right a b (y ∷ r) f) in
        let tail = Chain-between (y ∷ r) x.at d' u' z' h k f rest in
        rw over
          (lx, others x.at p q (λ e. z (sym e)) ∙ (hx ∙ rw past refl), packets x.packet ∙ nx, tail)

  module _ (a : Cell) (fresh : t.elements new.at ≡ some (element new.packet null a.at))
      (left : t.elements a.at ≡ with_next new.at (s.elements a.at))
      (others : (p : Ptr) → p ≢ a.at → p ≢ new.at → t.elements p ≡ s.elements p) where
    pub Chain-Last :
        (l : Cells) (prev : Ptr)
        → Distinct l
        → Ascending l
        → Apart new.at l
        → a.num <ℤ new.num
        → Last a l
        → Chain s prev l
        → Chain t prev (insert new l)
    Chain-Last [] prev d u z h f c = absurd f
    Chain-Last (x ∷ []) prev d u z h e (lx, hx, nx, rest) =
        let h' : x.num <ℤ new.num = rw e at h in
        let past : ltb_ℤ new.num x.num ≡ false = ground arith in
        let left' : t.elements x.at ≡ with_next new.at (s.elements x.at) = rw e at left in
        let fresh' : t.elements new.at ≡ some (element new.packet null x.at) = rw e at fresh in
        rw past (lx, left' ∙ rw hx refl, packets x.packet ∙ nx, (live, fresh', num, tt))
    Chain-Last (x ∷ y ∷ r) prev (d, _, d') (u, u') (z, z') h f (lx, hx, nx, rest) =
        let there = Last-Among a (y ∷ r) f in
        let here = not_before y a r u' there in
        let up = not_before x a (y ∷ r) (u, u') (inr there) in
        let past = past_both a.num new.num y.num here h in
        let over = past_both a.num new.num x.num up h in
        let tail = Chain-Last (y ∷ r) x.at d' u' z' h f rest in
        rw over (
          lx,
          others x.at (Apart-Among x.at a (y ∷ r) d there) (λ e. z (sym e)) ∙ (hx ∙ rw past refl),
          packets x.packet ∙ nx,
          tail,
        )
