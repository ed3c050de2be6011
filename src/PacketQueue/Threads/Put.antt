-- ===== src/PacketQueue/Threads/Put.antt =====
-- add_paket of Praktikum 3/queue.c puts its packet in, while other calls wait in the queue.
use ws2425_bs_praktikum.Base.{
  Bool-cases, ◌≡◌, refl, sym, ap, ◌∙◌, inl, inr, false, not, ◌&&◌, ◌∷◌, arith, ◌==◌, length,
}
use ws2425_bs_praktikum.Base.Int.{ℤ, pos, negsuc, eqb_ℤ, ◌+ℤ◌}
use ws2425_bs_praktikum.PacketQueue.Store.{Ptr, null, Store}
use ws2425_bs_praktikum.PacketQueue.Cells.{
  Cell, Cells, head_cell, Chain, Foreign, Distinct, insert, ◌<ℤ◌,
}
use ws2425_bs_praktikum.PacketQueue.Insert.{
  Apart-insert, Foreign-insert, Distinct-insert, Ascending-insert, length-insert,
}
use ws2425_bs_praktikum.PacketQueue.Ordered.{add}
use ws2425_bs_praktikum.PacketQueue.Threads.Blocks.{Pc, returned}
use ws2425_bs_praktikum.PacketQueue.Threads.Follows.{
  Among, Follows, same_at, same_packet, Among-insert, find-insert,
}
use ws2425_bs_praktikum.PacketQueue.Threads.Place.{owns, IsFresh, Differ, IsLinked, Moves, put}

insert-head :
    (new : Cell) (cs : Cells)
    → negsuc 0 <ℤ new.num
    → insert new (head_cell ∷ cs) ≡ head_cell ∷ insert new cs
insert-head new cs h = ground arith

-- An address tells the cell, and so does a packet.
pub same_lock :
    (x a : Cell) (l : Cells)
    → Distinct l
    → Among x l
    → Among a l
    → (x.packet == a.packet) ≡ (x.at == a.at)
same_lock x a l d m n = elim (Bool-cases (x.packet == a.packet)) [
  | inl same ↦ elim (Bool-cases (x.at == a.at)) [
    | inl e ↦ same ∙ sym e
    | inr ne ↦
        let e = ap (λ (c : Cell). c.at) (same_packet x a l d m n (ground arith)) in
        absurd (ground arith)
  ]
  | inr other ↦ elim (Bool-cases (x.at == a.at)) [
    | inl same ↦
        let e = ap (λ (c : Cell). c.packet) (same_at x a l d m n (ground arith)) in
        absurd (ground arith)
    | inr ne ↦ other ∙ sym ne
  ]
]

count_up :
    (i : ℤ) (new : Cell) (cs : Cells)
    → i ≡ pos (length cs)
    → i +ℤ pos 1 ≡ pos (length (insert new cs))
unfolding ◌+ℤ◌
count_up i new cs h = rw (h, length-insert new cs) (ground arith)

IsFresh-insert :
    (new : Cell) (cs : Cells) (other : Cell)
    → Differ (add new) (add other)
    → IsFresh other cs
    → IsFresh other (insert new cs)
IsFresh-insert new cs other (p, k, n) (live, apart, foreign, none_yet, above) =
    let ne : eqb_ℤ other.num new.num ≡ false = ground arith in
    (
      live,
      Apart-insert other.at new cs (λ e. p (sym e)) apart,
      Foreign-insert other.packet new cs (λ e. k (sym e)) foreign,
      find-insert other.num new cs ne none_yet,
      above,
    )

-- The new cell stands in the chain: what is left to be known of the mutexes and the neighbours.
pub put-Moves :
    (new : Cell) (p : Pc) (s t : Store) (cs : Cells)
    → IsLinked s cs
    → IsFresh new (head_cell ∷ cs)
    → s.mutexes new.packet ≡ false
    → Chain t null (insert new (head_cell ∷ cs))
    → t.queue_index ≡ s.queue_index +ℤ pos 1
    → ((k : Ptr) → t.packets k ≡ s.packets k)
    → ((k : Ptr) → Foreign k (head_cell ∷ cs) → t.mutexes k ≡ s.mutexes k)
    → ((a b : Cell)
        → Follows a b (head_cell ∷ cs)
        → owns p a.at ≡ false
        → Follows a b (insert new (head_cell ∷ cs)))
    → ((x : Cell)
        → Among x (head_cell ∷ cs)
        → t.mutexes x.packet ≡ (not (owns p x.at) && s.mutexes x.packet))
    → Moves (add new) p (returned (pos 0, null)) s t cs (insert new cs)
put-Moves new p s t cs (chain, distinct, ascending, counted) f free chain' index packets frame
      follows locks =
    let (live, apart, foreign, none_yet, above) = f in
    let l = head_cell ∷ cs in
    let e = insert-head new cs above in
    record {
      linked = (
        rw e at chain',
        rw e at (Distinct-insert new l apart foreign distinct),
        rw e at (Ascending-insert new l none_yet ascending),
        index ∙ count_up s.queue_index new cs counted,
      );
      told = put;
      onward = λ on adders. absurd on;
      packets = packets;
      place = tt;
      among = λ x m. elim (Among-insert x new cs m) [
        | inl e ↦ inr (new, e, refl, (λ q. refl), f, free)
        | inr n ↦ inl n
      ];
      fresh = λ other d g. rw e at (IsFresh-insert new l other d g);
      frame = frame;
      follows = λ a b g o held. rw e at (follows a b g o);
      locks = λ x m n. locks x m;
      gained = λ x m h. absurd (cc);
    }
