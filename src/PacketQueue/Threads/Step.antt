-- ===== src/PacketQueue/Threads/Step.antt =====
-- How a call of Praktikum 3/queue.c goes on when it comes in at the head, or waits there.
use ws2425_bs_praktikum.Base.{
  true, false, ◌≤◌, ◌<◌, ◌≡◌, refl, sym, ◌∙◌, ◌⊎◌, inl, inr, some, [], ◌∷◌, arith, ◌==◌, length,
  leb, Bool-cases,
}
use ws2425_bs_praktikum.Base.Int.{ℤ, negsuc}
use ws2425_bs_praktikum.PacketQueue.Store.{Ptr, null, element, Store, ok, blocked}
use ws2425_bs_praktikum.PacketQueue.Operations.{queue_head, empty_packet, q_max}
use ws2425_bs_praktikum.PacketQueue.Cells.{Cell, Cells, head_cell, first_at, Ascending, ◌<ℤ◌}
use ws2425_bs_praktikum.PacketQueue.Ordered.{Call, add, get}
use ws2425_bs_praktikum.PacketQueue.Threads.Blocks.{
  Pc, entering, block, add_enter, add_next, get_enter, get_first, get_second,
}
use ws2425_bs_praktikum.PacketQueue.Threads.Follows.{
  Among, Follows, Follows-left, Follows-right, same_at,
}
use ws2425_bs_praktikum.PacketQueue.Threads.Place.{owns, IsFresh, IsReady, IsLinked, Moves}
use ws2425_bs_praktikum.PacketQueue.Threads.Behind
use ws2425_bs_praktikum.PacketQueue.Threads.Enter

-- The call is at the mutex of a cell behind all cells whose mutexes it holds.
abbrev pub Waits : Pc → Cell → Cells → Type 0
Waits p x l = Among x l × ((y : Cell) → Among y l → owns p y.at ≡ true → y.num <ℤ x.num)

abbrev pub Goes : Call → Pc → Store → Cells → Type 0
Goes c p s cs =
    (x : Cell) × Waits p x (head_cell ∷ cs)
    × (((s.mutexes x.packet ≡ true) × (block c p s ≡ blocked))
        ⊎ ((s.mutexes x.packet ≡ false)
            × ((p' : Pc) × (t : Store) × (cs' : Cells) × (block c p s ≡ ok p' t)
                × Moves c p p' s t cs cs')))

Follows-less : (a b : Cell) (l : Cells) → Ascending l → Follows a b l → a.num <ℤ b.num
Follows-less a b [] u f = absurd f
Follows-less a b (x ∷ []) u f = absurd f
Follows-less a b (x ∷ y ∷ r) ((h, _), _) (inl (e, g)) = rw (e, g) h
Follows-less a b (x ∷ y ∷ r) (_, u) (inr f) = Follows-less a b (y ∷ r) u f

by_own : (p : Pc) (a q : Ptr) → owns p q ≡ (q == a) → owns p q ≡ true → q ≡ a
by_own p a q h o = let e = sym h ∙ o in ground arith

-- One whose only mutex is that of the cell before.
pub Waits-next :
    (p : Pc) (a b : Cell) (cs : Cells) (s : Store)
    → IsLinked s cs
    → Follows a b (head_cell ∷ cs)
    → ((q : Ptr) → owns p q ≡ (q == a.at))
    → Waits p b (head_cell ∷ cs)
Waits-next p a b cs s linked f own =
    let l = head_cell ∷ cs in
    (
      Follows-right a b l f,
      λ y m o.
          let e = by_own p a.at y.at (own y.at) o in
          let same = same_at y a l linked.1 m (Follows-left a b l f) e in
          rw same (Follows-less a b l linked.2 f),
    )

Waits-head : (cs : Cells) → Waits entering head_cell (head_cell ∷ cs)
Waits-head cs = (inl refl, λ y m o. absurd (cc))

-- pthread_mutex_lock of a mutex that is held.
module _ (s : Store) (k : Ptr) (n : ℤ) (there : s.packets k ≡ some n)
    (held : s.mutexes k ≡ true) where
  pub next_blocked : (fresh packet current : Ptr) → add_next fresh packet current k s ≡ blocked
  unfolding add_next
  next_blocked fresh packet current = ground arith

  pub first_blocked : get_first k s ≡ blocked
  unfolding get_first
  first_blocked = ground arith

  pub second_blocked : get_second k s ≡ blocked
  unfolding get_second
  second_blocked = ground arith

module _ (s : Store) (first : Ptr)
    (head : s.elements queue_head ≡ some (element empty_packet first null))
    (num : s.packets empty_packet ≡ some (negsuc 0)) (held : s.mutexes empty_packet ≡ true) where
  enter_blocked : (fresh packet : Ptr) → add_enter fresh packet s ≡ blocked
  unfolding add_enter
  enter_blocked fresh packet = ground arith

  get_blocked : get_enter s ≡ blocked
  unfolding get_enter
  get_blocked = ground arith

module _ (s : Store) (cs : Cells) (linked : IsLinked s cs) where
  pub add_enter-Goes :
      (new : Cell) → IsFresh new (head_cell ∷ cs) → IsReady new s → Goes (add new) entering s cs
  unfolding block
  add_enter-Goes new f ready = elim (Bool-cases (s.mutexes empty_packet)) [
    | inl held ↦ (
      head_cell,
      Waits-head cs,
      inl (held, enter_blocked s (first_at cs) linked.0.1 linked.0.2 held new.at new.packet),
    )
    | inr free ↦ (head_cell, Waits-head cs, inr (free, go free cs linked f))
  ]
    where
      go :
          s.mutexes empty_packet ≡ false
          → (cs : Cells) → IsLinked s cs
          → IsFresh new (head_cell ∷ cs)
          → (p' : Pc) × (t : Store) × (cs' : Cells) × (add_enter new.at new.packet s ≡ ok p' t)
            × Moves (add new) entering p' s t cs cs'
      go free [] linked f = (
        _,
        _,
        _,
        Behind.alone-runs s new linked f ready free,
        Behind.alone-Moves s new linked f ready free,
      )
      go free (c ∷ r) linked f = elim (Bool-cases (leb q_max (length (c ∷ r)))) [
        | inl full ↦
            let h : q_max ≤ length (c ∷ r) = ground arith in
            (
              _,
              _,
              _,
              Enter.full-runs s (c ∷ r) linked free new h,
              Enter.full-Moves s (c ∷ r) linked free new h,
            )
        | inr room ↦
            let h : length (c ∷ r) < q_max = ground arith in
            (
              _,
              _,
              _,
              Enter.enter-runs s c r linked free new h f ready,
              Enter.enter-Moves s c r linked free new f ready,
            )
      ]

  pub get_enter-Goes : Goes get entering s cs
  unfolding block
  get_enter-Goes = elim (Bool-cases (s.mutexes empty_packet)) [
    | inl held ↦ (
      head_cell,
      Waits-head cs,
      inl (held, get_blocked s (first_at cs) linked.0.1 linked.0.2 held),
    )
    | inr free ↦ (head_cell, Waits-head cs, inr (free, go free cs linked))
  ]
    where
      go :
          s.mutexes empty_packet ≡ false
          → (cs : Cells) → IsLinked s cs
          → (p' : Pc) × (t : Store) × (cs' : Cells) × (get_enter s ≡ ok p' t)
            × Moves get entering p' s t cs cs'
      go free [] linked = (_, _, _, Enter.none-runs s linked free, Enter.none-Moves s linked free)
      go free (c ∷ r) linked =
          (_, _, _, Enter.some-runs s c r linked free, Enter.some-Moves s c r linked free)
