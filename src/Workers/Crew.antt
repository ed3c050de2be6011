-- ===== src/Workers/Crew.antt =====
-- What main.c of Praktikum 3 may rely on for one kind of its threads, and for its observer: facts
-- that no move of another thread undoes.
use ws2425_bs_praktikum.Base.{
  ℕ, suc, ◌≤◌, ◌<◌, ◌≡◌, ◌≢◌, refl, Bool, true, false, arith, ◌==◌, inl, inr, Bool-cases,
}
use ws2425_bs_praktikum.Workers.Loop
use ws2425_bs_praktikum.Workers.Loop.{
  max_packets, Pc, Move, lock, enter, leave, unlock, finish_round, unlock_last, Shop, opening,
  moves,
}
use ws2425_bs_praktikum.Workers.Shifts.{is_done}
use ws2425_bs_praktikum.Workers.Program.{Watch, ended, WatchMove, look, wake, print_if_done}

-- The loops: more threads can do the same, the counter only grows, and who has returned stays so.
Loop_Step-more : {n k : ℕ} {s t : Shop} → n ≤ k → Loop.Step n s t → Loop.Step k s t
Loop_Step-more le (moves i lt mv) = moves i (omega arith) mv

Loop_Reach-more : {n k m : ℕ} {s : Shop} → n ≤ k → Loop.Reach n m s → Loop.Reach k m s
Loop_Reach-more le Loop.start = Loop.start
Loop_Reach-more le (Loop.later r st) = Loop.later (Loop_Reach-more le r) (Loop_Step-more le st)

Move-grows :
    {c r c' r' : ℕ} {h h' : Bool} {p p' : Pc}
    → Move c h r p c' h' p' r'
    → (c ≤ c') × (is_done p ≡ false)
Move-grows (lock e) = (omega arith, refl)
Move-grows (enter e) = (omega arith, refl)
Move-grows (leave e) = (omega arith, refl)
Move-grows unlock = (omega arith, refl)
Move-grows finish_round = (omega arith, refl)
Move-grows unlock_last = (omega arith, refl)

pub Loop_Step-grows : {n : ℕ} {s t : Shop} → Loop.Step n s t → s.counter ≤ t.counter
Loop_Step-grows (moves i lt mv) = (Move-grows mv).0

Loop_Step-done :
    {n : ℕ} {s t : Shop}
    → Loop.Step n s t
    → (i : ℕ) → is_done (s.workers i).pc ≡ true
    → is_done (t.workers i).pc ≡ true
Loop_Step-done (moves j lt mv) i e = elim (Bool-cases (i == j)) [
  | inl same ↦ ground (arith, Move-grows mv)
  | inr other ↦ rw other e
]

pub WatchMove-not_ended : {c : ℕ} {w w' : Watch} → WatchMove c w w' → w ≢ ended
WatchMove-not_ended (look lt) e = cc
WatchMove-not_ended wake e = cc
WatchMove-not_ended (print_if_done le) e = cc

pub WatchMove-ended : {c : ℕ} {w w' : Watch} → WatchMove c w w' → w' ≡ ended → max_packets ≤ c
WatchMove-ended (look lt) e = absurd (cc)
WatchMove-ended wake e = absurd (cc)
WatchMove-ended (print_if_done le) e = le

-- One kind of threads: so many are to be started, so many are, and for so many main has waited.
pub record Crew (total started joined : ℕ) (shop : Shop) : Type 0 where
  pub range : started ≤ total
  pub made : ℕ
  pub reach : Loop.Reach started made shop
  pub waited : (i : ℕ) → i < joined → is_done (shop.workers i).pc ≡ true

pub Crew-Step :
    {total started joined : ℕ} {s t : Shop}
    → Loop.Step started s t
    → Crew total started joined s
    → Crew total started joined t
Crew-Step st v = record {
  range = v.range;
  made = suc v.made;
  reach = Loop.later v.reach st;
  waited = λ i h. Loop_Step-done st i (v.waited i h);
}

-- main starts one more, or has waited for one more.
pub Crew-main :
    {total started joined started' joined' : ℕ} {s : Shop}
    → Crew total started joined s
    → (started ≤ started') × (started' ≤ total)
    → ((i : ℕ) → i < joined' → is_done (s.workers i).pc ≡ true)
    → Crew total started' joined' s
Crew-main v more waited = record {
  range = more.1;
  made = v.made;
  reach = Loop_Reach-more more.0 v.reach;
  waited = waited;
}

-- The observer ends only behind the last round of the consumers, and main waits for it.
pub record Watched (joined : Bool) (w : Watch) (c_counter : ℕ) : Type 0 where
  pub waited : joined ≡ true → w ≡ ended
  pub enough : w ≡ ended → max_packets ≤ c_counter
