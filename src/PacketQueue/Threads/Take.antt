-- ===== src/PacketQueue/Threads/Take.antt =====
-- get_paket of Praktikum 3/queue.c takes the first cell out, while other calls wait in the queue.
use ws2425_bs_praktikum.Base.{
  ℕ, Bool, true, false, not, ◌&&◌, ◌||◌, ◌≡◌, ◌≢◌, refl, sym, ◌∙◌, ◌⊎◌, inl, inr, none, some, [],
  ◌∷◌, arith, ◌==◌, if◌then◌else◌, length, suc, Bool-cases,
}
use ws2425_bs_praktikum.Base.Int.{ℤ, pos, negsuc, ltb_ℤ, eqb_ℤ, ◌-ℤ◌}
use ws2425_bs_praktikum.PacketQueue.Store.{Ptr, null, element, Store, ok, update}
use ws2425_bs_praktikum.PacketQueue.Operations.{queue_head, empty_packet, unlock_at, unlink_first}
use ws2425_bs_praktikum.PacketQueue.Cells.{
  Cell, Cells, head_cell, first_at, Chain, Chain-frame, Foreign, Apart, find, ◌<ℤ◌,
}
use ws2425_bs_praktikum.PacketQueue.Ordered.{add, get}
use ws2425_bs_praktikum.PacketQueue.Threads.Blocks.{
  Pc, before_first, before_second, returned, get_first, get_second, get_last,
}
use ws2425_bs_praktikum.PacketQueue.Threads.Follows.{Among, Follows, Foreign-Among, Apart-Among}
use ws2425_bs_praktikum.PacketQueue.Threads.Put.{same_lock}
use ws2425_bs_praktikum.PacketQueue.Threads.Place.{owns, IsFresh, IsLinked, Moves, took}
use ws2425_bs_praktikum.PacketQueue.Threads.Onward.{relocked, stay-Moves, newly}
use ws2425_bs_praktikum.PacketQueue.Threads.Enter.{taken, taken-frame, taken-locks}
pub mod Only
pub mod First

find-drop : (n : ℤ) (h c : Cell) (r : Cells) → find n (h ∷ c ∷ r) ≡ none → find n (h ∷ r) ≡ none
find-drop n h c r e = elim (Bool-cases (eqb_ℤ n h.num)) [
  | inl same ↦ absurd (cc (rw same at e))
  | inr other ↦ elim (Bool-cases (eqb_ℤ n c.num)) [
    | inl same ↦ absurd (cc (rw (other, same) at e))
    | inr more ↦ rw other (rw (other, more) at e)
  ]
]

IsFresh-drop : (new h c : Cell) (r : Cells) → IsFresh new (h ∷ c ∷ r) → IsFresh new (h ∷ r)
IsFresh-drop new h c r (live, (p, (_, apart)), (k, (_, foreign)), none_yet, above) =
    (live, (p, apart), (k, foreign), find-drop new.num h c r none_yet, above)

count_down : (i : ℤ) (n : ℕ) → i ≡ pos (suc n) → i -ℤ pos 1 ≡ pos n
unfolding ◌-ℤ◌
count_down i n h = rw h (ground arith)

module _ (p : Pc) (s : Store) (c : Cell) (r : Cells) (head : owns p queue_head ≡ true)
    (first : (owns p c.at ≡ true) ⊎ (s.mutexes c.packet ≡ false)) where
  Follows-drop :
      (a b : Cell)
      → Follows a b (head_cell ∷ c ∷ r)
      → owns p a.at ≡ false
      → s.mutexes a.packet ≡ true
      → Follows a b (head_cell ∷ r)
  Follows-drop a b (inl (e, _)) o h = let o' : owns p queue_head ≡ false = rw e at o in absurd (cc)
  Follows-drop a b (inr f) o h = go r f
    where
      go : (r : Cells) → Follows a b (c ∷ r) → Follows a b (head_cell ∷ r)
      go [] f = absurd f
      go (d ∷ q) (inl (e, _)) =
          let o' : owns p c.at ≡ false = rw e at o in
          let h' : s.mutexes c.packet ≡ true = rw e at h in
          elim first [ inl mine ↦ absurd (cc) | inr free ↦ absurd (cc) ]
      go (d ∷ q) (inr f) = inr f

  pub take-Moves :
      (t : Store)
      → IsLinked s (c ∷ r)
      → Chain t null (head_cell ∷ r)
      → t.queue_index ≡ s.queue_index -ℤ pos 1
      → ((k : Ptr) → t.packets k ≡ s.packets k)
      → ((k : Ptr) → Foreign k (head_cell ∷ c ∷ r) → t.mutexes k ≡ s.mutexes k)
      → ((x : Cell)
          → Among x (head_cell ∷ r)
          → t.mutexes x.packet ≡ (not (owns p x.at) && s.mutexes x.packet))
      → Moves get p (returned (pos 0, c.packet)) s t (c ∷ r) r
  take-Moves t (_, distinct, ascending, counted) chain index packets frame locks = record {
    linked = (
      chain,
      (distinct.0.1, distinct.1.1, distinct.2.2),
      (ascending.0.1, ascending.1.1),
      index ∙ count_down s.queue_index (length r) counted,
    );
    told = took;
    onward = λ on adders. absurd on;
    packets = packets;
    place = tt;
    among = λ x m. inl (inr m);
    fresh = λ new d f. IsFresh-drop new head_cell c r f;
    frame = frame;
    follows = λ a b f o h. Follows-drop a b f o h;
    locks = λ x m n. locks x n;
    gained = λ x m o. absurd (cc);
  }
