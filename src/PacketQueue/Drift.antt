-- ===== src/PacketQueue/Drift.antt =====
-- How far queue_index of Praktikum 3/queue.c can be off.
use mathlib.Core.Option.{some_inj}
use ws2425_bs_praktikum.Base.{
  ℕ, ◌+◌, ◌≤◌, ◌<◌, ◌≡◌, refl, Bool, true, Option, none, some, arith, ◌==◌, Bool-cases, inl, inr,
}
use ws2425_bs_praktikum.Base.Int.{ℤ, pos, ◌+ℤ◌, ◌-ℤ◌, ◌≤ℤ◌}
use ws2425_bs_praktikum.Base.Threads.{put_at, sum_of, sum_of-put_at}
use ws2425_bs_praktikum.PacketQueue.Index.{
  Pc, added_to, added, taken_from, got, Move, load_add, store_add, load_get, store_get, Shared,
  Step, moves, is_before, Reach, start, later,
}

-- The calls that are behind their access.
abbrev pub adds : Pc → ℕ
adds p = elim p [ added ↦ 1 | _ ↦ 0 ]

abbrev pub gets : Pc → ℕ
gets p = elim p [ got ↦ 1 | _ ↦ 0 ]

-- So many below, so many above the first value at most.
abbrev pub Near : (index : ℤ) (below above : ℕ) → ℤ → Type 0
Near index below above i = (index ≤ℤ i +ℤ pos below) × (i ≤ℤ index +ℤ pos above)

-- What a call has loaded.
abbrev register : Pc → Option ℤ
register p = elim p [ added_to i ↦ some i | taken_from i ↦ some i | _ ↦ none ]

abbrev HoldsNear : (index : ℤ) (below above : ℕ) → Pc → Type 0
HoldsNear index below above p = (v : ℤ) → register p ≡ some v → Near index below above v

Near-more : (index i : ℤ) (b a b' a' : ℕ) → b ≤ b' → a ≤ a' → Near index b a i → Near index b' a' i
unfolding ◌+ℤ◌
Near-more index i b a b' a' h k n = ground arith

Near-up : (index i : ℤ) (b a : ℕ) → Near index b a i → Near index b (a + 1) (i +ℤ pos 1)
unfolding ◌+ℤ◌
Near-up index i b a n = ground arith

Near-down : (index i : ℤ) (b a : ℕ) → Near index b a i → Near index (b + 1) a (i -ℤ pos 1)
unfolding ◌+ℤ◌ ◌-ℤ◌
Near-down index i b a n = ground arith

Near-start : (index : ℤ) (b a : ℕ) → Near index b a index
unfolding ◌+ℤ◌
Near-start index b a = ground arith

module _ (index i : ℤ) (b a b' a' : ℕ) where
  Move-Near :
      {h h' : Bool} {p p' : Pc} {i' : ℤ}
      → Move i h p i' h' p'
      → Near index b a i
      → HoldsNear index b a p
      → b' + gets p ≡ b + gets p'
      → a' + adds p ≡ a + adds p'
      → Near index b' a' i' × HoldsNear index b' a' p'
  Move-Near load_add n r eb ea =
      let m = Near-more index i b a b' a' (omega arith) (omega arith) n in
      (m, λ v e. rw (some_inj.0 e) at m)
  Move-Near (store_add v) n r eb ea = (
    Near-more index (v +ℤ pos 1) b (a + 1) b' a' (omega arith) (omega arith)
        (Near-up index v b a (r v refl)),
    λ w e. absurd (cc),
  )
  Move-Near (load_get free) n r eb ea =
      let m = Near-more index i b a b' a' (omega arith) (omega arith) n in
      (m, λ v e. rw (some_inj.0 e) at m)
  Move-Near (store_get v) n r eb ea = (
    Near-more index (v -ℤ pos 1) (b + 1) a b' a' (omega arith) (omega arith)
        (Near-down index v b a (r v refl)),
    λ w e. absurd (cc),
  )

record Inv (n : ℕ) (index : ℤ) (s : Shared) : Type 0 where
  near : Near index (sum_of gets n s.calls) (sum_of adds n s.calls) s.index
  loaded :
      (k : ℕ) → k < n → HoldsNear index (sum_of gets n s.calls) (sum_of adds n s.calls) (s.calls k)

-- A call never goes back before its access.
Move-behind :
    {i i' : ℤ} {h h' : Bool} {p p' : Pc}
    → Move i h p i' h' p'
    → (gets p ≤ gets p') × (adds p ≤ adds p')
Move-behind load_add = omega arith
Move-behind (store_add v) = omega arith
Move-behind (load_get free) = omega arith
Move-behind (store_get v) = omega arith

Step-Inv : {n : ℕ} {index : ℤ} {s t : Shared} → Step n s t → Inv n index s → Inv n index t
Step-Inv {n} {index} {s} (moves k {i} {h} {p} lt mv) v =
    let b = sum_of gets n s.calls in
    let a = sum_of adds n s.calls in
    let b' = sum_of gets n (put_at s.calls k p) in
    let a' = sum_of adds n (put_at s.calls k p) in
    let eb = sum_of-put_at gets n s.calls k p lt in
    let ea = sum_of-put_at adds n s.calls k p lt in
    let m = Move-Near index s.index b a b' a' mv v.near (v.loaded k lt) eb ea in
    record {
      near = m.0;
      loaded = λ j more w e. elim (Bool-cases (j == k)) [
        | inl same ↦ m.1 w (rw same at e)
        | inr other ↦
            Near-more index w b a b' a' (omega (arith, eb, Move-behind mv))
              (omega (arith, ea, Move-behind mv)) (v.loaded j more w (rw other at e))
      ];
    }

before-none : (p : Pc) → is_before p ≡ true → register p ≡ none
before-none p e = ground arith

Reach-Inv : {n : ℕ} {index : ℤ} {s : Shared} → Reach n index s → Inv n index s
Reach-Inv {n} {index} (start calls before) = record {
  near = Near-start index (sum_of gets n calls) (sum_of adds n calls);
  loaded = λ k lt v e. absurd (cc (before-none (calls k) (before k lt)));
}
Reach-Inv (later r st) = Step-Inv st (Reach-Inv r)

-- Whatever the order of the loads and stores of n calls of add_paket and get_paket: queue_index
-- lies no further below its first value than the calls of get_paket that are behind their access,
-- and no further above it than those of add_paket.
pub drift_bounds :
    {n : ℕ} {index : ℤ} {s : Shared}
    → Reach n index s
    → (index ≤ℤ s.index +ℤ pos (sum_of gets n s.calls))
      × (s.index ≤ℤ index +ℤ pos (sum_of adds n s.calls))
drift_bounds r = (Reach-Inv r).near
