-- ===== src/PacketQueue/Crowd.antt =====
-- A full queue of Praktikum 3, and memory for the packets of a producer.
use ws2425_bs_praktikum.Base.{
  ltb, zero, suc, ◌+◌, ◌-◌, ◌≤◌, ◌<◌, ◌&&◌, ◌≡◌, refl, none, some, ◌==◌, if◌then◌else◌, ℕ, [], ◌∷◌,
  arith,
}
use ws2425_bs_praktikum.Base.Int.{pos, negsuc}
use ws2425_bs_praktikum.PacketQueue.Store.{Store, element}
use ws2425_bs_praktikum.PacketQueue.Cells.{
  Cells, cell, IsQueue, Above, Apart, Foreign, Distinct, Ascending, Unlocked, Chain, first_at,
}
use ws2425_bs_praktikum.PacketQueue.Elements.{Supply}
use ws2425_bs_praktikum.PacketQueue.Sample.{no_mutex}
use ws2425_bs_praktikum.PacketQueue.Waits.{IsFresh}

-- A full queue: the packets 2, ..., 26, each with its address for its number.
abbrev pub cells_from : ℕ → ℕ → Cells
cells_from p zero = []
cells_from p (suc n) = cell p p (pos p) ∷ cells_from (suc p) n

abbrev pub full_queue : Store
full_queue = record {
  elements = λ p.
      if p == 1
      then some (element 1 2 0)
      else if ltb 1 p && ltb p 27
      then some (element p (if p == 26 then 0 else suc p) (p - 1))
      else none;
  packets = λ p. if p == 1 then some (negsuc 0) else some (pos p);
  mutexes = no_mutex;
  queue_index = pos 25;
  errno = 0;
  misuse = 0;
}

Apart-cells_from : (a p n : ℕ) → a < p → Apart a (cells_from p n)
Apart-cells_from a p zero h = tt
Apart-cells_from a p (suc n) h = (omega arith, Apart-cells_from a (suc p) n (omega arith))

Foreign-cells_from : (a p n : ℕ) → a < p → Foreign a (cells_from p n)
Foreign-cells_from a p zero h = tt
Foreign-cells_from a p (suc n) h = (omega arith, Foreign-cells_from a (suc p) n (omega arith))

Distinct-cells_from : (p n : ℕ) → Distinct (cells_from p n)
Distinct-cells_from p zero = tt
Distinct-cells_from p (suc n) = (
  Apart-cells_from p (suc p) n (omega arith),
  Foreign-cells_from p (suc p) n (omega arith),
  Distinct-cells_from (suc p) n,
)

Above-cells_from : (a p n : ℕ) → a < p → Above (pos a) (cells_from p n)
Above-cells_from a p zero h = tt
Above-cells_from a p (suc n) h = (omega arith, Above-cells_from a (suc p) n (omega arith))

Ascending-cells_from : (p n : ℕ) → Ascending (cells_from p n)
Ascending-cells_from p zero = tt
Ascending-cells_from p (suc n) =
    (Above-cells_from p (suc p) n (omega arith), Ascending-cells_from (suc p) n)

Unlocked-cells_from : (p n : ℕ) → Unlocked no_mutex (cells_from p n)
Unlocked-cells_from p zero = tt
Unlocked-cells_from p (suc n) = (refl, Unlocked-cells_from (suc p) n)

first_at-cells_from : (p n : ℕ) → first_at (cells_from (suc p) n) ≡ (if n == 0 then 0 else suc p)
first_at-cells_from p zero = refl
first_at-cells_from p (suc n) = ground arith

Chain-cells_from : (p n : ℕ) → 1 ≤ p → suc p + n ≡ 27 → Chain full_queue p (cells_from (suc p) n)
Chain-cells_from p zero lo e = tt
Chain-cells_from p (suc n) lo e = (
  omega arith,
  ground (arith, first_at-cells_from (suc p) n),
  ground arith,
  Chain-cells_from (suc p) n (omega arith) (omega arith),
)

pub full_queue-IsQueue : IsQueue full_queue no_mutex (cells_from 2 25)
full_queue-IsQueue = record {
  chain = (omega arith, refl, refl, Chain-cells_from 1 25 (omega arith) refl);
  distinct = (
    Apart-cells_from 1 2 25 (omega arith),
    Foreign-cells_from 1 2 25 (omega arith),
    Distinct-cells_from 2 25,
  );
  ascending = (ground arith, Ascending-cells_from 2 25);
  counted = refl;
  locks = λ k. refl;
  unlocked = (refl, Unlocked-cells_from 2 25);
}

-- Memory that a producer gets behind that of the queue, and the same random number each time.
abbrev pub supply_of : ℕ → Supply
supply_of r = record { packet_at = λ n. 100 + n; element_at = λ n. 200 + n; rand = λ _. r }

Apart-behind : (a p n : ℕ) → p + n ≤ a → Apart a (cells_from p n)
Apart-behind a p zero h = tt
Apart-behind a p (suc n) h = (omega arith, Apart-behind a (suc p) n (omega arith))

Foreign-behind : (a p n : ℕ) → p + n ≤ a → Foreign a (cells_from p n)
Foreign-behind a p zero h = tt
Foreign-behind a p (suc n) h = (omega arith, Foreign-behind a (suc p) n (omega arith))

pub supply_of-IsFresh : (r : ℕ) → IsFresh (supply_of r) no_mutex (cells_from 2 25)
supply_of-IsFresh r = record {
  supplied = λ n. record {
    live = omega arith;
    apart = (omega arith, Apart-behind (200 + n) 2 25 (omega arith));
    packet_live = omega arith;
    free = refl;
    foreign = (omega arith, Foreign-behind (100 + n) 2 25 (omega arith));
  };
  other = λ i j ne e. ne (omega arith);
}
