-- ===== src/PacketQueue/Reject.antt =====
-- The loop of `add_paket` of Praktikum 3/queue.c where the number is already in the queue.
use mathlib.Core.Path.{subst}
use ws2425_bs_praktikum.Base.{
  ℕ, zero, suc, ◌<◌, ◌≡◌, ◌≢◌, refl, ◌∙◌, Bool, true, false, ◌||◌, none, some, [], ◌∷◌, arith, ◌==◌,
  if◌then◌else◌, length, inl, inr, Bool-cases,
}
use ws2425_bs_praktikum.Base.Int.{ℤ, negsuc, ltb_ℤ, eqb_ℤ}
use ws2425_bs_praktikum.PacketQueue.Store.{Ptr, Store, ok, update}
use ws2425_bs_praktikum.PacketQueue.Operations.{add_loop, already_in_queue}
use ws2425_bs_praktikum.PacketQueue.Cells.{Cell, Cells, Foreign, Above, Ascending, find}
use ws2425_bs_praktikum.PacketQueue.Walk.{
  Before, Walk, Fresh, store_next, next_before, next_runs, next_Walk, next_Fresh,
}

-- The store afterwards: the packet is freed, and of the cell with its number the mutex stays held.
pub record Rejected (s t : Store) (held : Ptr → Bool) (packet dup : Ptr) : Type 0 where
  pub elements : (a : Ptr) → t.elements a ≡ s.elements a
  pub packets : (k : Ptr) → t.packets k ≡ (if k == packet then none else s.packets k)
  pub locks : (k : Ptr) → t.mutexes k ≡ (k == dup || held k)
  pub index : t.queue_index ≡ s.queue_index
  pub errno : t.errno ≡ already_in_queue
  pub misuse : t.misuse ≡ suc s.misuse

-- The new packet is not one that the walk meets.
pub record Separate (held : Ptr → Bool) (packet : Ptr) (b : Before) (cs : Cells) : Type 0 where
  pub free : held packet ≡ false
  pub other : packet ≢ b.packet
  pub foreign : Foreign packet cs

find-Above : (m n : ℤ) (cs : Cells) → Above m cs → ltb_ℤ m n ≡ false → find n cs ≡ none
find-Above m n [] a h = refl
find-Above m n (c ∷ cs) (x, a) h = ground (arith, find-Above m n cs a)

module _ (s : Store) (held : Ptr → Bool) (new : Cell) (b : Before) (c : Cell) (cs : Cells) where
  store_reject : Store
  store_reject = record s {
    packets = update s.packets new.packet none;
    mutexes = update s.mutexes b.packet false;
    errno = already_in_queue;
    misuse = suc s.misuse;
  }

  reject_runs :
      (fuel : ℕ)
      → Walk s held b c cs
      → Fresh s new b (c ∷ cs)
      → Separate held new.packet b (c ∷ cs)
      → eqb_ℤ new.num c.num ≡ true
      → add_loop (suc fuel) new.at new.packet c.at s ≡ ok (negsuc 0) store_reject
  unfolding add_loop store_reject
  reject_runs fuel w f p same = ground (arith, w.locks b.packet, w.locks new.packet)

  reject-Rejected : Walk s held b c cs → Rejected s store_reject held new.packet c.packet
  unfolding store_reject
  reject-Rejected w = record {
    elements = λ a. refl;
    packets = λ k. refl;
    locks = λ k. ground (arith, w.locks k);
    index = refl;
    errno = refl;
    misuse = refl;
  }

found_here :
    (fuel : ℕ) (s : Store) (held : Ptr → Bool) (new : Cell) (b : Before) (c : Cell) (cs : Cells)
    (dup : Ptr)
    → Walk s held b c cs
    → Fresh s new b (c ∷ cs)
    → Separate held new.packet b (c ∷ cs)
    → eqb_ℤ new.num c.num ≡ true
    → find new.num (c ∷ cs) ≡ some dup
    → (t : Store) × (add_loop (suc fuel) new.at new.packet c.at s ≡ ok (negsuc 0) t)
      × Rejected s t held new.packet dup
found_here fuel s held new b c cs dup w f p same n =
    let e : c.packet ≡ dup = ground arith in
    (
      store_reject s held new b c cs,
      reject_runs s held new b c cs fuel w f p same,
      subst (λ k. Rejected s (store_reject s held new b c cs) held new.packet k) e
          (reject-Rejected s held new b c cs w),
    )

module _ (s : Store) (held : Ptr → Bool) (new : Cell) (b : Before) (c d : Cell) (cs : Cells) where
  next_Separate :
      Separate held new.packet b (c ∷ d ∷ cs)
      → Separate held new.packet (next_before s held new b c d cs) (d ∷ cs)
  unfolding next_before
  next_Separate p = record { free = p.free; other = p.foreign.0; foreign = p.foreign.1 }

  next_Rejected :
      (t : Store) (dup : Ptr)
      → Rejected (store_next s held new b c d cs) t held new.packet dup
      → Rejected s t held new.packet dup
  unfolding store_next
  next_Rejected t dup r = record {
    elements = r.elements;
    packets = r.packets;
    locks = r.locks;
    index = r.index;
    errno = r.errno;
    misuse = r.misuse;
  }

-- The loop walks up to the cell with the number.
pub add_loop-Rejected :
    (fuel : ℕ) (s : Store) (held : Ptr → Bool) (new : Cell) (b : Before) (c : Cell) (cs : Cells)
    (dup : Ptr)
    → length cs < fuel
    → Walk s held b c cs
    → Fresh s new b (c ∷ cs)
    → Separate held new.packet b (c ∷ cs)
    → Ascending (c ∷ cs)
    → find new.num (c ∷ cs) ≡ some dup
    → (t : Store) × (add_loop fuel new.at new.packet c.at s ≡ ok (negsuc 0) t)
      × Rejected s t held new.packet dup
add_loop-Rejected zero s held new b c cs dup h w f p a n = absurd (omega arith)
add_loop-Rejected (suc fuel) s held new b c [] dup h w f p a n =
    elim (Bool-cases (eqb_ℤ new.num c.num)) [
      | inl same ↦ found_here fuel s held new b c [] dup w f p same n
      | inr other ↦ absurd (ground arith)
    ]
add_loop-Rejected (suc fuel) s held new b c (d ∷ cs) dup h w f p a n =
    elim (Bool-cases (eqb_ℤ new.num c.num)) [
      | inl same ↦ found_here fuel s held new b c (d ∷ cs) dup w f p same n
      | inr other ↦
          let rest : find new.num (d ∷ cs) ≡ some dup = rw other at n in
          let less : ltb_ℤ new.num c.num ≡ false =
            ground (arith, find-Above c.num new.num (d ∷ cs) a.0) in
          let (t, runs, r) =
            add_loop-Rejected fuel (store_next s held new b c d cs) held new
              (next_before s held new b c d cs) d cs dup (omega arith)
              (next_Walk s held new b c d cs w) (next_Fresh s held new b c d cs f)
              (next_Separate s held new b c d cs p) a.1 rest in
          (
            t,
            next_runs s held new b c d cs fuel w f less other ∙ runs,
            next_Rejected s held new b c d cs t dup r,
          )
    ]
