-- ===== src/PacketQueue/Threads/Keep.antt =====
-- A move of one call of Praktikum 3/queue.c, with all the calls that are in the queue.
use ws2425_bs_praktikum.Base.{
  ℕ, ◌<◌, Bool, true, false, not, ◌&&◌, ◌||◌, ◌≡◌, ◌≢◌, refl, sym, ap, ◌∙◌, ◌⊎◌, inl, inr, ◌∷◌,
  arith, ◌==◌, Bool-cases,
}
use ws2425_bs_praktikum.Base.Threads.{put_at}
use ws2425_bs_praktikum.PacketQueue.Store.{Ptr, Store}
use ws2425_bs_praktikum.PacketQueue.Cells.{Cell, Cells, head_cell}
use ws2425_bs_praktikum.PacketQueue.Ordered.{Call}
use ws2425_bs_praktikum.PacketQueue.Threads.Blocks.{Pc, System}
use ws2425_bs_praktikum.PacketQueue.Threads.Follows.{Among, Apart-Among}
use ws2425_bs_praktikum.PacketQueue.Threads.Place.{owns, Place, IsFresh, Differ, Moves}
use ws2425_bs_praktikum.PacketQueue.Threads.Inv.{Inv, owns-Among, Place-kept}

-- What a lock tells afterwards.
was_held :
    (o o' m m' : Bool)
    → m' ≡ (o' || (not o && m))
    → m' ≡ true
    → (o' ≡ true) ⊎ ((o ≡ false) × (m ≡ true))
was_held o o' m m' e h = ground arith

is_held :
    (o o' m m' : Bool)
    → m' ≡ (o' || (not o && m))
    → (o' ≡ true) ⊎ ((o ≡ false) × (m ≡ true))
    → m' ≡ true
is_held o o' m m' e h = ground arith

at_put : {A : Type 0} (f : ℕ → A) (i : ℕ) (a : A) → put_at f i a i ≡ a
at_put f i a = ground arith

at_other :
    {A : Type 0} (f : ℕ → A) (i : ℕ) (a : A) (j : ℕ) → (j == i) ≡ false → put_at f i a j ≡ f j
at_other f i a j h = rw h refl

equal : (i j : ℕ) → (j == i) ≡ true → j ≡ i
equal i j h = ground arith

unequal : (i j : ℕ) → (j == i) ≡ false → i ≢ j
unequal i j h e = ground arith

module _ (n : ℕ) (job : ℕ → Call)
    (differ : (i j : ℕ) → i < n → j < n → i ≢ j → Differ (job i) (job j)) (y : System)
    (cs cs' : Cells) (inv : Inv n job y cs) (i : ℕ) (here : i < n) (p' : Pc) (t : Store)
    (m : Moves (job i) (y.pc i) p' y.store t cs cs') where
  abbrev l : Cells
  l = head_cell ∷ cs

  abbrev l' : Cells
  l' = head_cell ∷ cs'

  abbrev IsPut : Cell → Type 0
  IsPut x =
      (new : Cell) × (x ≡ new)
      × ((q : Ptr) → owns p' q ≡ false)
      × IsFresh new l
      × (t.mutexes new.packet ≡ false)

  -- A cell of the new list is one of the old or was put in.
  old_or_new : (x : Cell) → Among x l' → Among x l ⊎ IsPut x
  old_or_new x (inl e) = inl (inl e)
  old_or_new x (inr h) = elim (m.among x h) [
    | inl a ↦ inl (inr a)
    | inr (new, e, _, nothing, f, free) ↦ inr (new, e, nothing, f, m.frame new.packet f.2 ∙ free)
  ]

  -- Nobody holds the mutex of one that was put in.
  put-unowned : (x : Cell) (k : ℕ) → IsPut x → k < n → owns (y.pc k) x.at ≡ true → ⊥
  put-unowned x k (new, e, _, f, _) lt o =
      let (z, in_z, at) = owns-Among (job k) (y.pc k) cs y.store x.at (inv.place k lt) o in
      Apart-Among new.at z l f.1 in_z (ap (λ (c : Cell). c.at) (sym e) ∙ sym at)

  others :
      (k : ℕ)
      → k < n
      → i ≢ k
      → (x : Cell) → Among x l
      → owns (y.pc k) x.at ≡ true
      → (owns (y.pc i) x.at ≡ false) × (y.store.mutexes x.packet ≡ true)
  others k lt ne x a o = elim (Bool-cases (owns (y.pc i) x.at)) [
    | inl mine ↦ absurd (ne (inv.sole i k here lt x a mine o))
    | inr other ↦ (other, inv.held k lt x a o)
  ]

  held_other :
      (k : ℕ)
      → k < n
      → i ≢ k
      → (x : Cell) → Among x l'
      → owns (y.pc k) x.at ≡ true
      → t.mutexes x.packet ≡ true
  held_other k lt ne x a o = elim (old_or_new x a) [
    | inl old ↦
        is_held (owns (y.pc i) x.at) (owns p' x.at) (y.store.mutexes x.packet) (t.mutexes x.packet)
          (m.locks x old a) (inr (others k lt ne x old o))
    | inr new ↦ absurd (put-unowned x k new lt o)
  ]

  held_mover : (x : Cell) → Among x l' → owns p' x.at ≡ true → t.mutexes x.packet ≡ true
  held_mover x a o = elim (old_or_new x a) [
    | inl old ↦
        is_held (owns (y.pc i) x.at) (owns p' x.at) (y.store.mutexes x.packet) (t.mutexes x.packet)
          (m.locks x old a) (inl o)
    | inr (new, e, nothing, _, _) ↦ let h = nothing x.at in absurd (cc)
  ]

  sole_mover :
      (k : ℕ)
      → k < n
      → i ≢ k
      → (x : Cell) → Among x l'
      → owns p' x.at ≡ true
      → owns (y.pc k) x.at ≡ true
      → ⊥
  sole_mover k lt ne x a o o' = elim (old_or_new x a) [
    | inl old ↦
        let (other, held) = others k lt ne x old o' in
        elim (m.gained x old o) [ inl mine ↦ absurd (cc) | inr free ↦ absurd (cc) ]
    | inr new ↦ put-unowned x k new lt o'
  ]

  after : System
  after = record { store = t; pc = put_at y.pc i p' }

  moved-place : (k : ℕ) → k < n → Place (job k) (after.pc k) l' t
  unfolding after
  moved-place k lt = elim (Bool-cases (k == i)) [
    | inl same ↦ rw (equal i k same) (rw (at_put y.pc i p') m.place)
    | inr other ↦ rw (at_other y.pc i p' k other) (
        Place-kept (job i) (y.pc i) p' y.store t cs cs' m (job k) (y.pc k)
          (differ i k here lt (unequal i k other)) (others k lt (unequal i k other))
          (inv.place k lt))
  ]

  moved-held :
      (k : ℕ)
      → k < n
      → (x : Cell) → Among x l'
      → owns (after.pc k) x.at ≡ true
      → t.mutexes x.packet ≡ true
  unfolding after
  moved-held k lt x a o = elim (Bool-cases (k == i)) [
    | inl same ↦ held_mover x a (rw same at o)
    | inr other ↦ held_other k lt (unequal i k other) x a (rw other at o)
  ]

  moved-sole :
      (j k : ℕ)
      → j < n
      → k < n
      → (x : Cell) → Among x l'
      → owns (after.pc j) x.at ≡ true
      → owns (after.pc k) x.at ≡ true
      → j ≡ k
  unfolding after
  moved-sole j k lt lt' x a o o' = elim (Bool-cases (j == i)) [
    | inl same ↦ elim (Bool-cases (k == i)) [
      | inl same' ↦ equal i j same ∙ sym (equal i k same')
      | inr other ↦
          absurd (sole_mover k lt' (unequal i k other) x a (rw same at o) (rw other at o'))
    ]
    | inr other ↦ elim (Bool-cases (k == i)) [
      | inl same ↦ absurd (sole_mover j lt (unequal i j other) x a (rw same at o') (rw other at o))
      | inr other' ↦ elim (old_or_new x a) [
        | inl old ↦ inv.sole j k lt lt' x old (rw other at o) (rw other' at o')
        | inr new ↦ absurd (put-unowned x j new lt (rw other at o))
      ]
    ]
  ]

  moved-owner :
      (x : Cell)
      → Among x l'
      → t.mutexes x.packet ≡ true
      → (k : ℕ) × (k < n) × (owns (after.pc k) x.at ≡ true)
  unfolding after
  moved-owner x a h = elim (old_or_new x a) [
    | inr (new, e, _, _, free) ↦ let h' : t.mutexes new.packet ≡ true = rw e at h in absurd (cc)
    | inl old ↦
        elim (was_held (owns (y.pc i) x.at) (owns p' x.at) (y.store.mutexes x.packet)
          (t.mutexes x.packet) (m.locks x old a) h) [
            | inl o ↦ (i, here, rw (at_put y.pc i p') o)
            | inr (o, held) ↦
                let (k, lt, mine) = inv.owner x old held in
                elim (Bool-cases (k == i)) [
                  | inl same ↦
                      let mine' : owns (y.pc i) x.at ≡ true = rw (equal i k same) at mine in
                      absurd (cc)
                  | inr other ↦ (k, lt, rw (at_other y.pc i p' k other) mine)
                ]
          ]
  ]

  pub Inv-kept : Inv n job (record { store = t; pc = put_at y.pc i p' }) cs'
  unfolding after
  Inv-kept = record {
    linked = m.linked;
    place = moved-place;
    held = moved-held;
    sole = moved-sole;
    owner = moved-owner;
  }
