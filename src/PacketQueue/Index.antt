-- ===== src/PacketQueue/Index.antt =====
-- The variable queue_index of Praktikum 3/queue.c between threads: `queue_index++` in line 100,
-- which add_paket does without any mutex, and `queue_index--` in line 133, which get_paket does
-- with the head's. Each is a load and a store.
use ws2425_bs_praktikum.Base.{ℕ, ◌<◌, ◌≡◌, Bool, true, false}
use ws2425_bs_praktikum.Base.Int.{ℤ, pos, ◌+ℤ◌, ◌-ℤ◌}
use ws2425_bs_praktikum.Base.Threads.{put_at}

-- Where a call stands: before the access, between its load and its store, behind it.
pub data Pc : Type 0 where
  adding : Pc
  added_to : ℤ → Pc
  added : Pc
  getting : Pc
  taken_from : ℤ → Pc
  got : Pc

-- A move of a call, with the variable and whether a get_paket has the head's mutex for its access.
pub data Move (index : ℤ) (head_held : Bool) : Pc → ℤ → Bool → Pc → Type 0 where
  load_add : Move index head_held adding index head_held (added_to index)
  store_add : (i : ℤ) → Move index head_held (added_to i) (i +ℤ pos 1) head_held added
  load_get : head_held ≡ false → Move index head_held getting index true (taken_from index)
  store_get : (i : ℤ) → Move index head_held (taken_from i) (i -ℤ pos 1) false got

pub record Shared : Type 0 where
  pub index : ℤ
  pub head_held : Bool
  pub calls : ℕ → Pc

pub data Step (n : ℕ) (s : Shared) : Shared → Type 0 where
  moves :
      (k : ℕ) {i : ℤ} {h : Bool} {p : Pc}
      → k < n
      → Move s.index s.head_held (s.calls k) i h p
      → Step n s (record { index = i; head_held = h; calls = put_at s.calls k p })

abbrev pub is_before : Pc → Bool
is_before adding = true
is_before getting = true
is_before _ = false

-- What n calls reach that stand before their accesses, with the variable at a value.
pub data Reach (n : ℕ) (index : ℤ) : Shared → Type 0 where
  start :
      (calls : ℕ → Pc)
      → ((k : ℕ) → k < n → is_before (calls k) ≡ true)
      → Reach n index (record { index = index; head_held = false; calls = calls })
  later : {s t : Shared} → Reach n index s → Step n s t → Reach n index t
