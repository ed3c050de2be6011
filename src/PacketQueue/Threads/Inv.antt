-- ===== src/PacketQueue/Threads/Inv.antt =====
-- What calls of Praktikum 3/queue.c that are in the queue at the same time keep to: the queue, the
-- places of the calls and the holders of the mutexes.
use ws2425_bs_praktikum.Base.{ℕ, ◌<◌, true, false, ◌≡◌, refl, sym, ◌∙◌, inl, inr, ◌∷◌}
use ws2425_bs_praktikum.PacketQueue.Store.{Ptr, Store}
use ws2425_bs_praktikum.PacketQueue.Operations.{queue_head}
use ws2425_bs_praktikum.PacketQueue.Cells.{Cell, Cells, head_cell}
use ws2425_bs_praktikum.PacketQueue.Ordered.{Call, add, get}
use ws2425_bs_praktikum.PacketQueue.Threads.Blocks.{
  Pc, entering, walking, before_first, before_second, returned, System,
}
use ws2425_bs_praktikum.PacketQueue.Threads.Follows.{Among, Follows-left}
use ws2425_bs_praktikum.PacketQueue.Threads.Place.{
  owns, Place, IsFresh, IsReady, IsLinked, Differ, Moves, one, either, at_one, at_self,
}

pub record Inv (n : ℕ) (job : ℕ → Call) (y : System) (cs : Cells) : Type 0 where
  pub linked : IsLinked y.store cs
  pub place : (i : ℕ) → i < n → Place (job i) (y.pc i) (head_cell ∷ cs) y.store
  pub held :
      (i : ℕ)
      → i < n
      → (x : Cell) → Among x (head_cell ∷ cs)
      → owns (y.pc i) x.at ≡ true
      → y.store.mutexes x.packet ≡ true
  pub sole :
      (i j : ℕ)
      → i < n
      → j < n
      → (x : Cell) → Among x (head_cell ∷ cs)
      → owns (y.pc i) x.at ≡ true
      → owns (y.pc j) x.at ≡ true
      → i ≡ j
  pub owner :
      (x : Cell)
      → Among x (head_cell ∷ cs)
      → y.store.mutexes x.packet ≡ true
      → (i : ℕ) × (i < n) × (owns (y.pc i) x.at ≡ true)

-- The mutexes that a call holds are of cells in the queue.
pub owns-Among :
    (c : Call) (p : Pc) (cs : Cells) (s : Store) (a : Ptr)
    → Place c p (head_cell ∷ cs) s
    → owns p a ≡ true
    → (x : Cell) × Among x (head_cell ∷ cs) × (x.at ≡ a)
owns-Among (add new) (walking current k) cs s a (_, (x, b, f, e, _, _)) o =
    (x, Follows-left x b (head_cell ∷ cs) f, e ∙ sym (one a current o))
owns-Among get (before_first k) cs s a place o = (head_cell, inl refl, sym (one a queue_head o))
owns-Among get (before_second first k) cs s a (x, b, _, f, e, _) o =
    elim (either a queue_head first o) [
      | inl h ↦ (head_cell, inl refl, sym h)
      | inr h ↦ (x, Follows-left x b (head_cell ∷ cs) f, e ∙ sym h)
    ]
owns-Among (add new) (before_first k) cs s a place o = absurd place
owns-Among (add new) (before_second f k) cs s a place o = absurd place
owns-Among get (walking current k) cs s a place o = absurd place
owns-Among c entering cs s a place o = absurd (cc)
owns-Among c (returned r) cs s a place o = absurd (cc)

module _ (c : Call) (p p' : Pc) (s t : Store) (cs cs' : Cells) (m : Moves c p p' s t cs cs') where
  -- A cell that is not in the queue is still ready.
  kept-Ready : (new : Cell) → IsFresh new (head_cell ∷ cs) → IsReady new s → IsReady new t
  kept-Ready new f ready = (m.packets new.packet ∙ ready.0, m.frame new.packet f.2 ∙ ready.1)

  -- What another call relies on stays.
  pub Place-kept :
      (other : Call) (q : Pc)
      → Differ c other
      → ((x : Cell)
          → Among x (head_cell ∷ cs)
          → owns q x.at ≡ true
          → (owns p x.at ≡ false) × (s.mutexes x.packet ≡ true))
      → Place other q (head_cell ∷ cs) s
      → Place other q (head_cell ∷ cs') t
  Place-kept (add new) entering d free (f, ready) = (m.fresh new d f, kept-Ready new f ready)
  Place-kept (add new) (walking current k) d free ((f, ready), (a, b, g, e, e', above)) =
      let (o, h) = free a (Follows-left a b (head_cell ∷ cs) g) (at_one a.at current e) in
      ((m.fresh new d f, kept-Ready new f ready), (a, b, m.follows a b g o h, e, e', above))
  Place-kept get (before_first k) d free (a, f, e) =
      let (o, h) = free head_cell (inl refl) refl in (a, m.follows head_cell a f o h, e)
  Place-kept get (before_second first k) d free (a, b, f, g, e, e') =
      let (o, h) = free head_cell (inl refl) refl in
      let (o', h') =
        free a (Follows-left a b (head_cell ∷ cs) g) (at_self a.at queue_head first e) in
      (a, b, m.follows head_cell a f o h, m.follows a b g o' h', e, e')
  Place-kept get entering d free place = tt
  Place-kept (add new) (before_first k) d free place = absurd place
  Place-kept (add new) (before_second f k) d free place = absurd place
  Place-kept get (walking current k) d free place = absurd place
  Place-kept other (returned r) d free place = tt
