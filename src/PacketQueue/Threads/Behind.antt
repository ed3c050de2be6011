-- ===== src/PacketQueue/Threads/Behind.antt =====
-- A call of add_paket of Praktikum 3/queue.c at the last cell puts its packet behind it, while
-- other calls wait in the queue.
use ws2425_bs_praktikum.Base.{
  Option, suc, ◌≡◌, ◌≢◌, refl, sym, ◌∙◌, true, false, not, ◌&&◌, some, [], ◌∷◌, arith, ◌==◌,
}
use ws2425_bs_praktikum.Base.Int.{ℤ, pos, negsuc, ltb_ℤ, eqb_ℤ, ◌+ℤ◌}
use ws2425_bs_praktikum.PacketQueue.Store.{Ptr, null, Element, element, Store, ok, update}
use ws2425_bs_praktikum.PacketQueue.Operations.{queue_head, empty_packet, append}
use ws2425_bs_praktikum.PacketQueue.Cells.{Cell, Cells, head_cell, Chain, insert, ◌<ℤ◌}
use ws2425_bs_praktikum.PacketQueue.Ordered.{add}
use ws2425_bs_praktikum.PacketQueue.Threads.Blocks.{
  entering, walking, returned, answered, add_round, add_next, add_enter,
}
use ws2425_bs_praktikum.PacketQueue.Threads.Follows.{
  Last, Among, Follows, Follows-left, Follows-right, Apart-Among, Foreign-Among,
}
use ws2425_bs_praktikum.PacketQueue.Threads.Gap.{Follows-Last}
use ws2425_bs_praktikum.PacketQueue.Threads.Links.{Links, with_next, Chain-Last}
use ws2425_bs_praktikum.PacketQueue.Threads.Put.{same_lock, put-Moves}
use ws2425_bs_praktikum.PacketQueue.Threads.Place.{IsFresh, IsReady, IsLinked, Moves}
use ws2425_bs_praktikum.PacketQueue.Threads.Between.{other_key}

-- The elements with `new` behind `b`.
abbrev pub elements_behind : Store → (new b : Cell) → Ptr → Ptr → Option Element
elements_behind s new b prev =
    update (update s.elements new.at (some (element new.packet null b.at))) b.at
      (some (element b.packet new.at prev))

module _ (s : Store) (new b : Cell) (prev : Ptr) where
  behind-fresh :
      new.at ≢ b.at → elements_behind s new b prev new.at ≡ some (element new.packet null b.at)
  behind-fresh p = ground arith

  behind-left :
      s.elements b.at ≡ some (element b.packet null prev)
      → elements_behind s new b prev b.at ≡ with_next new.at (s.elements b.at)
  behind-left e = rw e (ground arith)

  behind-others : (p : Ptr) → p ≢ b.at → p ≢ new.at → elements_behind s new b prev p ≡ s.elements p
  behind-others p x y = ground arith

-- Behind the second of two neighbours. The mutex of the first is unlocked twice.
module _ (s : Store) (new a b : Cell) where
  pub store_behind : Store
  store_behind = record s {
    elements = elements_behind s new b a.at;
    mutexes = update (update (update s.mutexes b.packet true) a.packet false) b.packet false;
    queue_index = s.queue_index +ℤ pos 1;
    misuse = suc s.misuse;
  }

  behind_runs :
      (prev : Ptr)
      → s.elements a.at ≡ some (element a.packet b.at prev)
      → s.elements b.at ≡ some (element b.packet null a.at)
      → s.packets a.packet ≡ some a.num
      → s.packets b.packet ≡ some b.num
      → a.at ≢ null
      → b.at ≢ null
      → (b.at == a.at) ≡ false
      → (b.packet == a.packet) ≡ false
      → new.at ≢ null
      → new.at ≢ a.at
      → new.at ≢ b.at
      → s.packets new.packet ≡ some new.num
      → s.mutexes a.packet ≡ true
      → s.mutexes b.packet ≡ false
      → eqb_ℤ new.num b.num ≡ false
      → ltb_ℤ new.num b.num ≡ false
      → add_next new.at new.packet a.at b.packet s ≡ ok (returned (pos 0, null)) store_behind
  unfolding store_behind add_next add_round answered append
  behind_runs prev ea eb na nb la lb oa op ln na' nb' nn held free other less = ground arith

  behind-frame : (k : Ptr) → k ≢ a.packet → k ≢ b.packet → store_behind.mutexes k ≡ s.mutexes k
  unfolding store_behind
  behind-frame k x y = ground arith

  behind-locks :
      (x : Cell)
      → (x.packet == a.packet) ≡ (x.at == a.at)
      → s.mutexes b.packet ≡ false
      → store_behind.mutexes x.packet ≡ (not (x.at == a.at) && s.mutexes x.packet)
  unfolding store_behind
  behind-locks x e h = ground arith

above_other : (a b : ℤ) → eqb_ℤ a b ≡ false → ltb_ℤ a b ≡ false → b <ℤ a
above_other a b e h = ground arith

module _ (s : Store) (new a b : Cell) (cs : Cells) (linked : IsLinked s cs)
    (f : IsFresh new (head_cell ∷ cs)) (ready : IsReady new s) (g : Follows a b (head_cell ∷ cs))
    (held : s.mutexes a.packet ≡ true) (free : s.mutexes b.packet ≡ false)
    (k : Links s a b (head_cell ∷ cs)) (end : k.next ≡ null) (last : Last b (head_cell ∷ cs))
    (other : eqb_ℤ new.num b.num ≡ false) (less : ltb_ℤ new.num b.num ≡ false) where
  abbrev l : Cells
  l = head_cell ∷ cs

  in_a : Among a l
  in_a = Follows-left a b l g

  in_b : Among b l
  in_b = Follows-right a b l g

  other_packet : (b.packet == a.packet) ≡ false
  other_packet = other_key s.mutexes a.packet b.packet held free

  other_at : (b.at == a.at) ≡ false
  other_at = sym (same_lock b a l linked.1 in_b in_a) ∙ other_packet

  at_end : s.elements b.at ≡ some (element b.packet null a.at)
  at_end = rw end at k.right

  pub behind-runs :
      add_next new.at new.packet a.at b.packet s
      ≡ ok (returned (pos 0, null)) (store_behind s new a b)
  behind-runs =
      behind_runs s new a b k.prev k.left at_end k.left_num k.right_num k.live k.right_live other_at
        other_packet f.0 (Apart-Among new.at a l f.1 in_a) (Apart-Among new.at b l f.1 in_b) ready.0
        held free other less

  behind-Chain : Chain (store_behind s new a b) null (insert new l)
  unfolding store_behind
  behind-Chain =
      Chain-Last s (store_behind s new a b) new ready.0 f.0 (λ k. refl) b
        (behind-fresh s new b a.at (Apart-Among new.at b l f.1 in_b))
        (behind-left s new b a.at at_end) (behind-others s new b a.at) l null linked.1 linked.2 f.1
        (above_other new.num b.num other less) last linked.0

  pub behind-Moves :
      Moves
        (add new)
        (walking a.at b.packet)
        (returned (pos 0, null))
        s
        (store_behind s new a b)
        cs
        (insert new cs)
  unfolding store_behind ◌+ℤ◌
  behind-Moves =
      put-Moves new (walking a.at b.packet) s (store_behind s new a b) cs linked f ready.1
        behind-Chain refl (λ k. refl)
        (λ j o. behind-frame s new a b j (Foreign-Among j a l o in_a) (Foreign-Among j b l o in_b))
        (λ c d h o. Follows-Last b c d new l linked.2 last h (above_other new.num b.num other less))
        (λ x m. behind-locks s new a b x (same_lock x a l linked.1 m in_a) free)

-- Behind the head.
module _ (s : Store) (new : Cell) where
  pub store_alone : Store
  store_alone = record s {
    elements = elements_behind s new head_cell null;
    mutexes = update (update s.mutexes empty_packet true) empty_packet false;
    queue_index = s.queue_index +ℤ pos 1;
  }

  alone_runs :
      s.elements queue_head ≡ some (element empty_packet null null)
      → s.packets empty_packet ≡ some (negsuc 0)
      → s.mutexes empty_packet ≡ false
      → s.queue_index ≡ pos 0
      → new.at ≢ null
      → new.at ≢ queue_head
      → s.packets new.packet ≡ some new.num
      → negsuc 0 <ℤ new.num
      → add_enter new.at new.packet s ≡ ok (returned (pos 0, null)) store_alone
  unfolding store_alone add_enter add_round answered append
  alone_runs e n free i live other num above = ground arith

  alone-locks :
      (x : Cell)
      → s.mutexes empty_packet ≡ false
      → store_alone.mutexes x.packet ≡ s.mutexes x.packet
  unfolding store_alone
  alone-locks x h = ground arith

module _ (s : Store) (new : Cell) (linked : IsLinked s []) (f : IsFresh new (head_cell ∷ []))
    (ready : IsReady new s) (free : s.mutexes empty_packet ≡ false) where
  pub alone-runs : add_enter new.at new.packet s ≡ ok (returned (pos 0, null)) (store_alone s new)
  alone-runs = alone_runs s new linked.0.1 linked.0.2 free linked.3 f.0 f.1.0 ready.0 f.4

  pub alone-Moves :
      Moves (add new) entering (returned (pos 0, null)) s (store_alone s new) [] (insert new [])
  unfolding store_alone ◌+ℤ◌
  alone-Moves =
      put-Moves new entering s (store_alone s new) [] linked f ready.1
        (Chain-Last s (store_alone s new) new ready.0 f.0 (λ k. refl) head_cell
          (behind-fresh s new head_cell null f.1.0) (behind-left s new head_cell null linked.0.1)
          (behind-others s new head_cell null) (head_cell ∷ []) null linked.1 linked.2 f.1 f.4 refl
          linked.0)
        refl (λ k. refl) (λ j o. alone-locks s new (record head_cell { packet = j }) free)
        (λ c d h o. Follows-Last head_cell c d new (head_cell ∷ []) linked.2 refl h f.4)
        (λ x m. alone-locks s new x free)
