-- ===== src/PacketQueue/Threads/Linear.antt =====
-- Calls of add_paket and get_paket of Praktikum 3/queue.c at the same time, against single steps on
-- the list of cells in the order in which the calls return.
use ws2425_bs_praktikum.Base.{ℕ, ◌<◌, Bool, false, ◌≡◌, ◌≢◌, refl, sym, ◌∙◌, ◌⊎◌, inl, inr, [], ◌∷◌}
use ws2425_bs_praktikum.Base.Int.{ℤ}
use ws2425_bs_praktikum.PacketQueue.Store.{Ptr, Store, ok, blocked}
use ws2425_bs_praktikum.PacketQueue.Cells.{Cell, Cells, head_cell, IsQueue, Unlocked}
use ws2425_bs_praktikum.PacketQueue.Ordered.{Call, add, get}
use ws2425_bs_praktikum.PacketQueue.Threads.Blocks.{
  Pc, entering, walking, before_first, before_second, returned, block, System, Log, logged, Reach,
  start, later,
}
use ws2425_bs_praktikum.PacketQueue.Threads.Follows.{Among}
use ws2425_bs_praktikum.PacketQueue.Threads.Place.{Place, Answers, Told, Differ, Moves}
use ws2425_bs_praktikum.PacketQueue.Threads.Measure.{IsRunning}
use ws2425_bs_praktikum.PacketQueue.Threads.Goes.{any-Goes}
use ws2425_bs_praktikum.PacketQueue.Threads.Inv.{Inv}
use ws2425_bs_praktikum.PacketQueue.Threads.Keep.{Inv-kept}

-- What a caller brings to the queue: for add_paket a packet, a number and memory that are not in
-- it.
abbrev pub Brings : Call → Cells → Store → Type 0
Brings c cs s = Place c entering (head_cell ∷ cs) s

-- What the answers so far say of the list, each taken as one step in the order of the returns.
pub data Applied (job : ℕ → Call) (cs : Cells) : Log → Cells → Type 0 where
  nothing : Applied job cs [] cs
  returns :
      {log : Log} {xs ys : Cells}
      → Applied job cs log xs
      → (i : ℕ) {code : ℤ} {packet : Ptr} → Answers (job i) xs (code, packet) ys
      → Applied job cs ((i, code, packet) ∷ log) ys

Unlocked-Among :
    (held : Ptr → Bool) (x : Cell) (l : Cells) → Unlocked held l → Among x l → held x.packet ≡ false
Unlocked-Among held x [] u m = absurd m
Unlocked-Among held x (y ∷ r) (h, u) (inl e) = rw e h
Unlocked-Among held x (y ∷ r) (h, u) (inr m) = Unlocked-Among held x r u m

pub IsRunning-or : (p : Pc) → IsRunning p ⊎ ((a : ℤ × Ptr) × (p ≡ returned a))
IsRunning-or entering = inl tt
IsRunning-or (walking c k) = inl tt
IsRunning-or (before_first k) = inl tt
IsRunning-or (before_second f k) = inl tt
IsRunning-or (returned a) = inr (a, refl)

pub returned-blocked : (c : Call) (a : ℤ × Ptr) (s : Store) → block c (returned a) s ≡ blocked
unfolding block
returned-blocked (add new) a s = refl
returned-blocked get a s = refl

ok-same : (p q : Pc) (s t : Store) → ok p s ≡ ok q t → (p ≡ q) × (s ≡ t)
ok-same p q s t e = (cc, cc)

Told-Applied :
    (job : ℕ → Call) (cs0 cs cs' : Cells) (log : Log) (i : ℕ) (p : Pc)
    → Told (job i) cs p cs'
    → Applied job cs0 log cs
    → Applied job cs0 (logged i p log) cs'
Told-Applied job cs0 cs cs' log i entering e a = rw e a
Told-Applied job cs0 cs cs' log i (walking c k) e a = rw e a
Told-Applied job cs0 cs cs' log i (before_first k) e a = rw e a
Told-Applied job cs0 cs cs' log i (before_second f k) e a = rw e a
Told-Applied job cs0 cs cs' log i (returned (code, packet)) told a = returns a i told

module _ (n : ℕ) (job : ℕ → Call) (s : Store) (held : Ptr → Bool) (cs : Cells)
    (queue : IsQueue s held cs) (brings : (i : ℕ) → i < n → Brings (job i) cs s)
    (differ : (i j : ℕ) → i < n → j < n → i ≢ j → Differ (job i) (job j)) where
  pub start-Inv : Inv n job (record { store = s; pc = λ _. entering }) cs
  start-Inv = record {
    linked = (queue.chain, queue.distinct, queue.ascending, queue.counted);
    place = brings;
    held = λ i lt x m o. absurd (cc);
    sole = λ i j lt lt' x m o. absurd (cc);
    owner = λ x m h.
        let free = queue.locks x.packet ∙ Unlocked-Among held x (head_cell ∷ cs) queue.unlocked m in
        absurd (cc);
  }

  -- A move that the code makes is one that the others can live with.
  pub move :
      (y : System) (xs : Cells) (i : ℕ) (p : Pc) (t : Store)
      → Inv n job y xs
      → i < n
      → block (job i) (y.pc i) y.store ≡ ok p t
      → (ys : Cells) × Moves (job i) (y.pc i) p y.store t xs ys
  move y xs i p t inv lt e = elim (IsRunning-or (y.pc i)) [
    | inr (a, done) ↦
        let stopped = returned-blocked (job i) a y.store in
        let e' : block (job i) (returned a) y.store ≡ ok p t = rw done at e in absurd (cc)
    | inl on ↦
        let (x, _, goes) =
          any-Goes (job i) (y.pc i) y.store xs on inv.linked (inv.place i lt) (inv.held i lt) in
        elim goes [
          | inl (_, stopped) ↦ absurd (cc)
          | inr (_, (p', t', ys, runs, moves)) ↦
              let (ep, et) = ok-same p p' t t' (sym e ∙ runs) in (ys, rw (ep, et) moves)
        ]
  ]

  pub reached :
      (y : System) (log : Log)
      → Reach n job s y log
      → (xs : Cells) × Applied job cs log xs × Inv n job y xs
  reached y log start = (cs, nothing, start-Inv)
  reached _ _ (later {y = y0} {log = log0} r i {p = p} {t = t} lt e) =
      let (xs, applied, inv) = reached y0 log0 r in
      let (ys, moves) = move y0 xs i p t inv lt e in
      (
        ys,
        Told-Applied job cs xs ys log0 i p moves.told applied,
        Inv-kept n job differ y0 xs ys inv i lt p t moves,
      )

  pub reached-Goes :
      (y : System) (log : Log)
      → Reach n job s y log
      → (i : ℕ) → i < n
      → (block (job i) (y.pc i) y.store ≡ blocked)
        ⊎ ((p : Pc) × (t : Store) × (block (job i) (y.pc i) y.store ≡ ok p t))
  reached-Goes y log r i lt = elim (IsRunning-or (y.pc i)) [
    | inr (a, done) ↦ inl (rw done (returned-blocked (job i) a y.store))
    | inl on ↦
        let (xs, _, inv) = reached y log r in
        let (x, _, goes) =
          any-Goes (job i) (y.pc i) y.store xs on inv.linked (inv.place i lt) (inv.held i lt) in
        elim goes [
          | inl (_, stopped) ↦ inl stopped
          | inr (_, (p, t, ys, runs, moves)) ↦ inr (p, t, runs)
        ]
  ]
