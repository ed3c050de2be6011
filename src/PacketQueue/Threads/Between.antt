-- ===== src/PacketQueue/Threads/Between.antt =====
-- A call of add_paket of Praktikum 3/queue.c that has the mutexes of two neighbours puts its packet
-- in between them, while other calls wait in the queue.
use ws2425_bs_praktikum.Base.{
  Bool-cases, ◌≡◌, ◌≢◌, refl, sym, ap, ◌∙◌, inl, inr, Bool, true, false, not, ◌&&◌, some, ◌∷◌,
  arith, ◌==◌,
}
use ws2425_bs_praktikum.Base.Int.{ℤ, pos, ltb_ℤ, ◌+ℤ◌}
use ws2425_bs_praktikum.PacketQueue.Store.{Ptr, null, element, Store, ok, update}
use ws2425_bs_praktikum.PacketQueue.Operations.{insert_before}
use ws2425_bs_praktikum.PacketQueue.Cells.{Cell, Cells, head_cell, Chain, insert, ◌<ℤ◌}
use ws2425_bs_praktikum.PacketQueue.Ordered.{add}
use ws2425_bs_praktikum.PacketQueue.Threads.Blocks.{
  walking, returned, answered, add_round, add_next,
}
use ws2425_bs_praktikum.PacketQueue.Threads.Follows.{
  Among, Follows, Follows-left, Follows-right, Apart-Among, Foreign-Among,
}
use ws2425_bs_praktikum.PacketQueue.Threads.Gap.{Follows-others}
use ws2425_bs_praktikum.PacketQueue.Threads.Links.{Links, with_next, with_prev, Chain-between}
use ws2425_bs_praktikum.PacketQueue.Threads.Put.{same_lock, put-Moves}
use ws2425_bs_praktikum.PacketQueue.Threads.Place.{IsFresh, IsReady, IsLinked, Moves}

pub other_key : (held : Ptr → Bool) (p q : Ptr) → held p ≡ true → held q ≡ false → (q == p) ≡ false
other_key held p q h k = elim (Bool-cases (q == p)) [
  | inl same ↦ let e : q ≡ p = ground arith in let h' : held p ≡ false = rw e at k in absurd (cc)
  | inr other ↦ other
]

-- Between two cells.
module _ (s : Store) (new a b : Cell) (prev next : Ptr) where
  store_between : Store
  store_between = record s {
    elements =
        update
          (update (update s.elements new.at (some (element new.packet b.at a.at))) a.at
            (some (element a.packet new.at prev)))
          b.at (some (element b.packet next new.at));
    mutexes = update (update (update s.mutexes b.packet true) a.packet false) b.packet false;
    queue_index = s.queue_index +ℤ pos 1;
  }

  between_runs :
      s.elements a.at ≡ some (element a.packet b.at prev)
      → s.elements b.at ≡ some (element b.packet next a.at)
      → s.packets a.packet ≡ some a.num
      → s.packets b.packet ≡ some b.num
      → b.at ≢ null
      → (b.at == a.at) ≡ false
      → (b.packet == a.packet) ≡ false
      → new.at ≢ null
      → new.at ≢ a.at
      → new.at ≢ b.at
      → s.packets new.packet ≡ some new.num
      → s.mutexes a.packet ≡ true
      → s.mutexes b.packet ≡ false
      → ltb_ℤ new.num b.num ≡ true
      → add_next new.at new.packet a.at b.packet s ≡ ok (returned (pos 0, null)) store_between
  unfolding store_between add_next add_round answered insert_before
  between_runs ea eb na nb lb oa op ln na' nb' nn held free less = ground arith

  between-fresh :
      new.at ≢ a.at
      → new.at ≢ b.at
      → store_between.elements new.at ≡ some (element new.packet b.at a.at)
  unfolding store_between
  between-fresh p q = ground arith

  between-left :
      s.elements a.at ≡ some (element a.packet b.at prev)
      → (b.at == a.at) ≡ false
      → store_between.elements a.at ≡ with_next new.at (s.elements a.at)
  unfolding store_between
  between-left e p = rw e (ground arith)

  between-right :
      s.elements b.at ≡ some (element b.packet next a.at)
      → store_between.elements b.at ≡ with_prev new.at (s.elements b.at)
  unfolding store_between
  between-right e = rw e (ground arith)

  between-others :
      (p : Ptr) → p ≢ a.at → p ≢ b.at → p ≢ new.at → store_between.elements p ≡ s.elements p
  unfolding store_between
  between-others p x y z = ground arith

  between-frame : (k : Ptr) → k ≢ a.packet → k ≢ b.packet → store_between.mutexes k ≡ s.mutexes k
  unfolding store_between
  between-frame k x y = ground arith

  between-locks :
      (x : Cell)
      → (x.packet == a.packet) ≡ (x.at == a.at)
      → s.mutexes b.packet ≡ false
      → store_between.mutexes x.packet ≡ (not (x.at == a.at) && s.mutexes x.packet)
  unfolding store_between
  between-locks x e h = ground arith

unowned : (c a : Cell) → (c.at == a.at) ≡ false → c ≢ a
unowned c a h e = let p = ap (λ (z : Cell). z.at) e in ground arith

below : (a b : ℤ) → ltb_ℤ a b ≡ true → a <ℤ b
below a b h = ground arith

module _ (s : Store) (new a b : Cell) (cs : Cells) (linked : IsLinked s cs)
    (f : IsFresh new (head_cell ∷ cs)) (ready : IsReady new s) (above : a.num <ℤ new.num)
    (g : Follows a b (head_cell ∷ cs)) (held : s.mutexes a.packet ≡ true)
    (free : s.mutexes b.packet ≡ false) where
  abbrev l : Cells
  l = head_cell ∷ cs

  in_a : Among a l
  in_a = Follows-left a b l g

  in_b : Among b l
  in_b = Follows-right a b l g

  a_lock : (x : Cell) → Among x l → (x.packet == a.packet) ≡ (x.at == a.at)
  a_lock x m = same_lock x a l linked.1 m in_a

  other_packet : (b.packet == a.packet) ≡ false
  other_packet = other_key s.mutexes a.packet b.packet held free

  other_at : (b.at == a.at) ≡ false
  other_at = sym (a_lock b in_b) ∙ other_packet

  module _ (k : Links s a b l) (less : ltb_ℤ new.num b.num ≡ true) where
    pub between : Store
    between = store_between s new a b k.prev k.next

    pub between-runs :
        add_next new.at new.packet a.at b.packet s ≡ ok (returned (pos 0, null)) between
    unfolding between
    between-runs =
        between_runs s new a b k.prev k.next k.left k.right k.left_num k.right_num k.right_live
          other_at other_packet f.0 (Apart-Among new.at a l f.1 in_a)
          (Apart-Among new.at b l f.1 in_b) ready.0 held free less

    between-Chain : Chain between null (insert new l)
    unfolding between store_between
    between-Chain =
        let x = Apart-Among new.at a l f.1 in_a in
        let y = Apart-Among new.at b l f.1 in_b in
        Chain-between s between new ready.0 f.0 (λ k. refl) a b
          (between-fresh s new a b k.prev k.next x y)
          (between-left s new a b k.prev k.next k.left other_at)
          (between-right s new a b k.prev k.next k.right) (between-others s new a b k.prev k.next) l
          null linked.1 linked.2 f.1 above (below new.num b.num less) g linked.0

    pub between-Moves :
        Moves
          (add new)
          (walking a.at b.packet)
          (returned (pos 0, null))
          s
          between
          cs
          (insert new cs)
    unfolding between ◌+ℤ◌ store_between
    between-Moves =
        put-Moves new (walking a.at b.packet) s between cs linked f ready.1 between-Chain refl
          (λ k. refl)
          (λ j o.
            between-frame s new a b k.prev k.next j (Foreign-Among j a l o in_a)
              (Foreign-Among j b l o in_b))
          (λ c d h o.
            Follows-others a b c d new l linked.2 g h (unowned c a o) above
              (below new.num b.num less))
          (λ x m. between-locks s new a b k.prev k.next x (a_lock x m) free)
