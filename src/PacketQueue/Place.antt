-- ===== src/PacketQueue/Place.antt =====
-- The whole loop of `add_paket` of Praktikum 3/queue.c for a new number.
use ws2425_bs_praktikum.Base.{
  ℕ, zero, suc, ◌<◌, ◌≡◌, ◌∙◌, Bool, false, none, [], ◌∷◌, arith, length, inl, inr, Bool-cases,
}
use ws2425_bs_praktikum.Base.Int.{pos, ltb_ℤ, eqb_ℤ}
use ws2425_bs_praktikum.PacketQueue.Store.{Ptr, Store, ok}
use ws2425_bs_praktikum.PacketQueue.Operations.{add_loop}
use ws2425_bs_praktikum.PacketQueue.Cells.{Cell, Cells, find}
use ws2425_bs_praktikum.PacketQueue.Walk.{
  Before, Walk, Fresh, Inserted, store_before, before_runs, before_Inserted, store_behind,
  behind_runs, behind_Inserted, store_next, next_before, next_runs, next_Walk, next_Fresh,
  next_Inserted,
}

-- The loop puts the new cell in at its place, if the cells do not have its number yet.
pub add_loop-Inserted :
    (fuel : ℕ) (s : Store) (held : Ptr → Bool) (new : Cell) (b : Before) (c : Cell) (cs : Cells)
    → length cs < fuel
    → Walk s held b c cs
    → Fresh s new b (c ∷ cs)
    → find new.num (c ∷ cs) ≡ none
    → (t : Store) × (add_loop fuel new.at new.packet c.at s ≡ ok (pos 0) t)
      × Inserted s t held new b (c ∷ cs)
add_loop-Inserted zero s held new b c cs h w f n = absurd (omega arith)
add_loop-Inserted (suc fuel) s held new b c [] h w f n =
    let same : eqb_ℤ new.num c.num ≡ false = ground arith in
    elim (Bool-cases (ltb_ℤ new.num c.num)) [
      | inl less ↦ (
        store_before s held new b c [],
        before_runs s held new b c [] fuel w f less,
        before_Inserted s held new b c [] w f less,
      )
      | inr less ↦ (
        store_behind s held new b c,
        behind_runs s held new b c fuel w f less same,
        behind_Inserted s held new b c w f less,
      )
    ]
add_loop-Inserted (suc fuel) s held new b c (d ∷ cs) h w f n =
    let same : eqb_ℤ new.num c.num ≡ false = ground arith in
    elim (Bool-cases (ltb_ℤ new.num c.num)) [
      | inl less ↦ (
        store_before s held new b c (d ∷ cs),
        before_runs s held new b c (d ∷ cs) fuel w f less,
        before_Inserted s held new b c (d ∷ cs) w f less,
      )
      | inr less ↦
          let rest : find new.num (d ∷ cs) ≡ none = rw same at n in
          let (t, runs, i) =
            add_loop-Inserted fuel (store_next s held new b c d cs) held new
              (next_before s held new b c d cs) d cs (omega arith) (next_Walk s held new b c d cs w)
              (next_Fresh s held new b c d cs f) rest in
          (
            t,
            next_runs s held new b c d cs fuel w f less same ∙ runs,
            next_Inserted s held new b c d cs t w f less i,
          )
    ]
