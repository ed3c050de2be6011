-- ===== src/Race/Sort.antt =====
-- The struct Pod_Racer and the functions `swap` and `sort` of Praktikum 2 Aufg 2/main.c.
use Prim.Native.String.{String}
use ws2425_bs_praktikum.Base.{
  ℕ, zero, suc, ◌+◌, ◌-◌, Bool, true, false, Option, none, some, List, if◌then◌else◌, get_elem?,
  set,
}
use ws2425_bs_praktikum.Base.Int.{ℤ, ltb_ℤ}

pub record PodRacer : Type 0 where
  pub name : String
  pub rennzeit : ℤ
  pub thread_id : ℕ

-- `swap(&arr[i], &arr[j])`, where the two hold x and y.
abbrev pub swap : List PodRacer → (i j : ℕ) (x y : PodRacer) → List PodRacer
swap arr i j x y = set (set arr i y) j x

-- One round of the inner loop at j: the array and the flag `swapped` after it; `none` is an access
-- behind the array's end.
unfoldable pub compare_at : (j : ℕ) → List PodRacer → Bool → Option (List PodRacer × Bool)
compare_at j arr swapped = elim (get_elem? arr j) [
  | none ↦ none
  | some x ↦ elim (get_elem? arr (j + 1)) [
    | none ↦ none
    | some y ↦
        some
          (if ltb_ℤ y.rennzeit x.rennzeit then (swap arr j (j + 1) x y, true) else (arr, swapped))
  ]
]

-- The inner loop, entered at j with so many rounds left.
unfoldable pub sort_pass : (rounds j : ℕ) → List PodRacer → Bool → Option (List PodRacer × Bool)
sort_pass zero j arr swapped = some (arr, swapped)
sort_pass (suc rounds) j arr swapped = elim (compare_at j arr swapped) [
  | none ↦ none
  | some (arr', swapped') ↦ sort_pass rounds (j + 1) arr' swapped'
]

-- The outer loop, entered at i with so many rounds left.
unfoldable pub sort_loop : (rounds i n : ℕ) → List PodRacer → Option (List PodRacer)
sort_loop zero i n arr = some arr
sort_loop (suc rounds) i n arr = elim (sort_pass (n - i - 1) 0 arr false) [
  | none ↦ none
  | some (arr', swapped) ↦ elim swapped [
    | true ↦ sort_loop rounds (i + 1) n arr'
    | false ↦ some arr'
  ]
]

unfoldable pub sort : List PodRacer → ℕ → Option (List PodRacer)
sort arr n = sort_loop (n - 1) 0 n arr
