-- ===== src/PacketQueue/Threads/Goes.antt =====
-- get_paket of Praktikum 3/queue.c goes on from its places, and so does any call.
use ws2425_bs_praktikum.Base.{true, false, ◌≡◌, refl, sym, ap, inl, inr, [], ◌∷◌, Bool-cases}
use ws2425_bs_praktikum.PacketQueue.Store.{Store, ok}
use ws2425_bs_praktikum.PacketQueue.Operations.{queue_head, empty_packet}
use ws2425_bs_praktikum.PacketQueue.Cells.{Cell, Cells, head_cell, Apart}
use ws2425_bs_praktikum.PacketQueue.Ordered.{Call, add, get}
use ws2425_bs_praktikum.PacketQueue.Threads.Blocks.{
  Pc, entering, walking, before_first, before_second, returned, block, get_first,
}
use ws2425_bs_praktikum.PacketQueue.Threads.Measure.{IsRunning}
use ws2425_bs_praktikum.PacketQueue.Threads.Follows.{
  Among, Follows, Follows-left, Apart-Among, same_at,
}
use ws2425_bs_praktikum.PacketQueue.Threads.Place.{
  owns, Place, IsLinked, Moves, either, at_one, at_self,
}
use ws2425_bs_praktikum.PacketQueue.Threads.Take.Only
use ws2425_bs_praktikum.PacketQueue.Threads.Take.First
use ws2425_bs_praktikum.PacketQueue.Threads.Next.{next-Goes}
use ws2425_bs_praktikum.PacketQueue.Threads.Step.{
  Waits, Goes, Waits-next, first_blocked, second_blocked, add_enter-Goes, get_enter-Goes,
}

-- What stands behind the first cell of a list.
Follows-first :
    (x a : Cell) (l : Cells) → Apart x.at l → Follows x a (x ∷ l) → (r : Cells) × (l ≡ a ∷ r)
Follows-first x a [] u f = absurd f
Follows-first x a (y ∷ r) u (inl (_, e)) = (r, rw e refl)
Follows-first x a (y ∷ r) u (inr f) =
    absurd (Apart-Among x.at x (y ∷ r) u (Follows-left x a (y ∷ r) f) refl)

module _ (s : Store) (c : Cell) (r : Cells) (linked : IsLinked s (c ∷ r))
    (held : s.mutexes empty_packet ≡ true) where
  abbrev l : Cells
  l = head_cell ∷ c ∷ r

  first-Goes : Goes get (before_first c.packet) s (c ∷ r)
  unfolding block
  first-Goes =
      let waits =
        Waits-next (before_first c.packet) head_cell c (c ∷ r) s linked (inl (refl, refl))
          (λ q. refl) in
      elim (Bool-cases (s.mutexes c.packet)) [
        | inl taken ↦ (c, waits, inl (taken, first_blocked s c.packet c.num linked.0.3.2 taken))
        | inr free ↦ (c, waits, inr (free, go r linked free))
      ]
    where
      go :
          (r : Cells)
          → IsLinked s (c ∷ r)
          → s.mutexes c.packet ≡ false
          → (p' : Pc) × (t : Store) × (cs' : Cells) × (get_first c.packet s ≡ ok p' t)
            × Moves get (before_first c.packet) p' s t (c ∷ r) cs'
      go [] linked free =
          (_, _, _, Only.last-runs s c linked held free, Only.last-Moves s c linked held free)
      go (d ∷ q) linked free = (
        _,
        _,
        _,
        First.second-runs s c d q linked held free,
        First.second-Moves s c d q linked held free,
      )

module _ (s : Store) (c d : Cell) (r : Cells) (linked : IsLinked s (c ∷ d ∷ r))
    (held : s.mutexes empty_packet ≡ true) (held_c : s.mutexes c.packet ≡ true) where
  second-Waits : Waits (before_second c.at d.packet) d (head_cell ∷ c ∷ d ∷ r)
  second-Waits = (
    inr (inr (inl refl)),
    λ y m o. elim (either y.at queue_head c.at o) [
      | inl e ↦
          let same = same_at y head_cell (head_cell ∷ c ∷ d ∷ r) linked.1 m (inl refl) e in
          rw same linked.2.0.1.0
      | inr e ↦
          let same = same_at y c (head_cell ∷ c ∷ d ∷ r) linked.1 m (inr (inl refl)) e in
          rw same linked.2.1.0.0
    ],
  )

  second-Goes : Goes get (before_second c.at d.packet) s (c ∷ d ∷ r)
  unfolding block
  second-Goes = elim (Bool-cases (s.mutexes d.packet)) [
    | inl taken ↦
        (d, second-Waits, inl (taken, second_blocked s d.packet d.num linked.0.3.3.2 taken))
    | inr free ↦ (
      d,
      second-Waits,
      inr (
        free,
        (
          _,
          _,
          _,
          First.first-runs s c d r linked held held_c free,
          First.first-Moves s c d r linked held held_c free,
        ),
      ),
    )
  ]

first_place :
    (s : Store) (cs : Cells) (a : Cell) (r : Cells)
    → cs ≡ a ∷ r
    → IsLinked s cs
    → s.mutexes empty_packet ≡ true
    → Goes get (before_first a.packet) s cs
first_place s cs a r e linked held = rw e (first-Goes s a r (rw e at linked) held)

second_place :
    (s : Store) (cs : Cells) (a b : Cell) (r : Cells)
    → cs ≡ a ∷ r
    → IsLinked s cs
    → Follows a b (head_cell ∷ cs)
    → s.mutexes empty_packet ≡ true
    → s.mutexes a.packet ≡ true
    → Goes get (before_second a.at b.packet) s cs
second_place s cs a b r e linked f held held_a =
    let linked' : IsLinked s (a ∷ r) = rw e at linked in
    let f' : Follows a b (head_cell ∷ a ∷ r) = rw e at f in
    elim f' [
      | inl (same, _) ↦ absurd (linked'.1.0.0 (ap (λ (c : Cell). c.at) (sym same)))
      | inr g ↦
          let (q, e') = Follows-first a b r linked'.1.2.0 g in
          let linked'' : IsLinked s (a ∷ b ∷ q) = rw e' at linked' in
          rw (e, e') (second-Goes s a b q linked'' held held_a)
    ]

pub any-Goes :
    (c : Call) (p : Pc) (s : Store) (cs : Cells)
    → IsRunning p
    → IsLinked s cs
    → Place c p (head_cell ∷ cs) s
    → ((x : Cell) → Among x (head_cell ∷ cs) → owns p x.at ≡ true → s.mutexes x.packet ≡ true)
    → Goes c p s cs
any-Goes (add new) entering s cs on linked (f, ready) held = add_enter-Goes s cs linked new f ready
any-Goes (add new) (walking current k) s cs on linked ((f, ready), (a, b, g, e, e', above)) held =
    let held_a = held a (Follows-left a b (head_cell ∷ cs) g) (at_one a.at current e) in
    rw (sym e, sym e') (next-Goes s cs linked new a b f ready above g held_a)
any-Goes (add new) (before_first k) s cs on linked place held = absurd place
any-Goes (add new) (before_second f k) s cs on linked place held = absurd place
any-Goes get entering s cs on linked place held = get_enter-Goes s cs linked
any-Goes get (walking current k) s cs on linked place held = absurd place
any-Goes get (before_first k) s cs on linked (a, f, e) held =
    let (r, same) = Follows-first head_cell a cs linked.1.0 f in
    rw (sym e) (first_place s cs a r same linked (held head_cell (inl refl) refl))
any-Goes get (before_second first k) s cs on linked (a, b, f, g, e, e') held =
    let (r, same) = Follows-first head_cell a cs linked.1.0 f in
    let held_a = held a (Follows-left a b (head_cell ∷ cs) g) (at_self a.at queue_head first e) in
    rw (sym e, sym e')
      (second_place s cs a b r same linked g (held head_cell (inl refl) refl) held_a)
any-Goes c (returned a) s cs on linked place held = absurd on
