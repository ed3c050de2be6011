-- ===== src/PacketQueue/Threads/Next.antt =====
-- A call of add_paket in Praktikum 3/queue.c goes on from the second of two neighbours.
use ws2425_bs_praktikum.Base.{true, false, ◌≡◌, refl, inl, inr, none, [], ◌∷◌, Bool-cases}
use ws2425_bs_praktikum.Base.Int.{ℤ, ltb_ℤ, eqb_ℤ}
use ws2425_bs_praktikum.PacketQueue.Store.{null, Store}
use ws2425_bs_praktikum.PacketQueue.Cells.{Cell, Cells, head_cell, find, ◌<ℤ◌}
use ws2425_bs_praktikum.PacketQueue.Ordered.{add}
use ws2425_bs_praktikum.PacketQueue.Threads.Blocks.{walking, block}
use ws2425_bs_praktikum.PacketQueue.Threads.Follows.{Among, Follows, Follows-right}
use ws2425_bs_praktikum.PacketQueue.Threads.Links.{Follows-Links}
use ws2425_bs_praktikum.PacketQueue.Threads.Place.{IsFresh, IsReady, IsLinked}
use ws2425_bs_praktikum.PacketQueue.Threads.Between
use ws2425_bs_praktikum.PacketQueue.Threads.Behind
use ws2425_bs_praktikum.PacketQueue.Threads.Onward
use ws2425_bs_praktikum.PacketQueue.Threads.Step.{Goes, Waits-next, next_blocked}

none_here : (n : ℤ) (b : Cell) (l : Cells) → find n l ≡ none → Among b l → eqb_ℤ n b.num ≡ false
none_here n b [] e m = absurd m
none_here n b (x ∷ xs) e m = elim (Bool-cases (eqb_ℤ n x.num)) [
  | inl same ↦ absurd (cc (rw same at e))
  | inr other ↦ elim m [ inl same ↦ rw same other | inr m' ↦ none_here n b xs (rw other at e) m' ]
]

module _ (s : Store) (cs : Cells) (linked : IsLinked s cs) where
  -- At the second of two neighbours.
  pub next-Goes :
      (new a b : Cell)
      → IsFresh new (head_cell ∷ cs)
      → IsReady new s
      → a.num <ℤ new.num
      → Follows a b (head_cell ∷ cs)
      → s.mutexes a.packet ≡ true
      → Goes (add new) (walking a.at b.packet) s cs
  unfolding block
  next-Goes new a b f ready above g held_a =
      let k = Follows-Links s null a b (head_cell ∷ cs) linked.0 g in
      let waits = Waits-next (walking a.at b.packet) a b cs s linked g (λ q. refl) in
      elim (Bool-cases (s.mutexes b.packet)) [
        | inl held ↦ (
          b,
          waits,
          inl (held, next_blocked s b.packet b.num k.right_num held new.at new.packet a.at),
        )
        | inr free ↦ elim (Bool-cases (ltb_ℤ new.num b.num)) [
          | inl less ↦ (
            b,
            waits,
            inr (
              free,
              (
                _,
                _,
                _,
                Between.between-runs s new a b cs linked f ready above g held_a free k less,
                Between.between-Moves s new a b cs linked f ready above g held_a free k less,
              ),
            ),
          )
          | inr less ↦
              let other =
                none_here new.num b (head_cell ∷ cs) f.3 (Follows-right a b (head_cell ∷ cs) g) in
              elim k.behind [
                | inl (end, last) ↦ (
                  b,
                  waits,
                  inr (
                    free,
                    (
                      _,
                      _,
                      _,
                      Behind.behind-runs s new a b cs linked f ready g held_a free k end last other
                          less,
                      Behind.behind-Moves s new a b cs linked f ready g held_a free k end last other
                          less,
                    ),
                  ),
                )
                | inr (e, h, next, live, m, there) ↦ (
                  b,
                  waits,
                  inr (
                    free,
                    (
                      _,
                      _,
                      _,
                      Onward.walk-runs s new a b e cs linked f ready g held_a free k h next live m
                          there other less,
                      Onward.walk-Moves s new a b e cs linked f ready g held_a free k h next live m
                          there other less,
                    ),
                  ),
                )
              ]
        ]
      ]
