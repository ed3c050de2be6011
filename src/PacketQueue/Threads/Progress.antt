-- ===== src/PacketQueue/Threads/Progress.antt =====
-- Which of several calls of Praktikum 3/queue.c can move: they take their mutexes in the order of
-- the queue.
use ws2425_bs_praktikum.Base.{
  ℕ, ◌<◌, true, ◌≡◌, refl, sym, ap, ◌∙◌, ◌⊎◌, inl, inr, [], ◌∷◌, arith, Bool-cases,
}
use ws2425_bs_praktikum.Base.Int.{ℤ}
use ws2425_bs_praktikum.PacketQueue.Store.{Ptr, Store, ok}
use ws2425_bs_praktikum.PacketQueue.Cells.{Cell, Cells, head_cell, Ascending, Above, Unlocked, ◌<ℤ◌}
use ws2425_bs_praktikum.PacketQueue.Ordered.{Call}
use ws2425_bs_praktikum.PacketQueue.Threads.Blocks.{
  Pc, entering, walking, before_first, before_second, returned, block, System,
}
use ws2425_bs_praktikum.PacketQueue.Threads.Follows.{Among, Above-Among}
use ws2425_bs_praktikum.PacketQueue.Threads.Place.{owns}
use ws2425_bs_praktikum.PacketQueue.Threads.Measure.{IsRunning}
use ws2425_bs_praktikum.PacketQueue.Threads.Goes.{any-Goes}
use ws2425_bs_praktikum.PacketQueue.Threads.Inv.{Inv}

owner-IsRunning : (p : Pc) (a : Ptr) → owns p a ≡ true → IsRunning p
owner-IsRunning entering a o = tt
owner-IsRunning (walking c k) a o = tt
owner-IsRunning (before_first k) a o = tt
owner-IsRunning (before_second f k) a o = tt
owner-IsRunning (returned r) a o = absurd (cc)

-- A call can make its next move.
abbrev pub CanGo : (ℕ → Call) → System → ℕ → Type 0
CanGo job y j = (p : Pc) × (t : Store) × (block (job j) (y.pc j) y.store ≡ ok p t)

circle : (a b c : ℤ) → a <ℤ b → b <ℤ c → c ≡ a → ⊥
circle a b c h k e = let h' : c <ℤ b = rw e h in omega arith

irreflexive : (a b : ℤ) → a <ℤ b → a ≡ b → ⊥
irreflexive a b h e = let h' : b <ℤ b = rw e at h in omega arith

module _ (n : ℕ) (job : ℕ → Call) (y : System) (xs : Cells) (inv : Inv n job y xs) where
  abbrev l : Cells
  l = head_cell ∷ xs

  -- A call goes on, or is at a mutex that is held, behind all of its own.
  go_or_wait :
      (i : ℕ)
      → i < n
      → IsRunning (y.pc i)
      → CanGo job y i
        ⊎ ((x : Cell) × Among x l
            × (y.store.mutexes x.packet ≡ true)
            × ((z : Cell) → Among z l → owns (y.pc i) z.at ≡ true → z.num <ℤ x.num))
  go_or_wait i lt on =
      let (x, waits, goes) =
        any-Goes (job i) (y.pc i) y.store xs on inv.linked (inv.place i lt) (inv.held i lt) in
      elim goes [
        | inl (held, _) ↦ inr (x, waits.0, held, waits.1)
        | inr (_, (p, t, ys, runs, _)) ↦ inl (p, t, runs)
      ]

  closed_rest :
      (b : Cell) (r : Cells)
      → Above b.num r
      → ((x z : Cell) → Among x (b ∷ r) → Among z l → x.num <ℤ z.num → Among z (b ∷ r))
      → (x z : Cell) → Among x r
      → Among z l
      → x.num <ℤ z.num
      → Among z r
  closed_rest b r above closed x z m in_l less = elim (closed x z (inr m) in_l less) [
    | inl e ↦
        absurd (
          circle b.num x.num z.num (Above-Among b.num x r above m) less
            (ap (λ (c : Cell). c.num) e))
    | inr h ↦ h
  ]

  -- Who holds a mutex that another waits for goes on, or waits for one further behind.
  chase :
      (back : Cells)
      → Ascending back
      → ((x : Cell) → Among x back → Among x l)
      → ((x z : Cell) → Among x back → Among z l → x.num <ℤ z.num → Among z back)
      → (x : Cell) → Among x back
      → y.store.mutexes x.packet ≡ true
      → (j : ℕ) × (j < n) × CanGo job y j
  chase [] asc sub closed x m held = absurd m
  chase (b ∷ r) (above, asc) sub closed x (inl e) held =
      let (j, lt, mine) = inv.owner x (sub x (inl e)) held in
      elim (go_or_wait j lt (owner-IsRunning (y.pc j) x.at mine)) [
        | inl goes ↦ (j, lt, goes)
        | inr (z, in_l, held_z, behind) ↦
            let less = behind x (sub x (inl e)) mine in
            elim (closed x z (inl e) in_l less) [
              | inl same ↦
                  absurd (irreflexive x.num z.num less (ap (λ (c : Cell). c.num) (e ∙ sym same)))
              | inr m ↦ chase r asc (λ c n. sub c (inr n)) (closed_rest b r above closed) z m held_z
            ]
      ]
  chase (b ∷ r) (above, asc) sub closed x (inr m) held =
      chase r asc (λ c n. sub c (inr n)) (closed_rest b r above closed) x m held

  pub some_goes : (i : ℕ) → i < n → IsRunning (y.pc i) → (j : ℕ) × (j < n) × CanGo job y j
  some_goes i lt on = elim (go_or_wait i lt on) [
    | inl goes ↦ (i, lt, goes)
    | inr (x, in_l, held, _) ↦ chase l inv.linked.2 (λ c m. m) (λ c z m in_z less. in_z) x in_l held
  ]

  -- When no call is running, no mutex of the queue is held.
  pub quiet-Unlocked :
      ((i : ℕ) → i < n → (a : ℤ × Ptr) × (y.pc i ≡ returned a))
      → (back : Cells) → ((x : Cell) → Among x back → Among x l)
      → Unlocked y.store.mutexes back
  quiet-Unlocked quiet [] sub = tt
  quiet-Unlocked quiet (b ∷ r) sub = (
    elim (Bool-cases (y.store.mutexes b.packet)) [
      | inl held ↦
          let (i, lt, mine) = inv.owner b (sub b (inl refl)) held in
          let (a, done) = quiet i lt in
          let mine' : owns (returned a) b.at ≡ true = rw done at mine in absurd (cc)
      | inr free ↦ free
    ],
    quiet-Unlocked quiet r (λ x m. sub x (inr m)),
  )
