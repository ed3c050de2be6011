-- ===== src/Race/Main.antt =====
-- `printErgebnis` and `main` of Praktikum 2 Aufg 2/main.c.
use Prim.Native.String.{String}
use mathlib.Core.List.{append_assoc}
use ws2425_bs_praktikum.Base.{
  ℕ, zero, suc, ◌+◌, ◌≡◌, refl, false, Option, none, some, List, [], ◌∷◌, ◌++◌, arith, length,
  length-append, get_elem?, if◌then◌else◌,
}
use ws2425_bs_praktikum.Base.Int.{ℤ, pos}
use ws2425_bs_praktikum.Race.Sort.{PodRacer, sort}
use ws2425_bs_praktikum.Race.Ranking.{IsRanking, sort-IsRanking}
use ws2425_bs_praktikum.Race.Flight.{anzahl_racer, Race}

-- A line of the result: "%d. Platz: Pod %s, Zeit %d ms".
pub record Line : Type 0 where
  pub platz : ℕ
  pub name : String
  pub zeit : ℤ

abbrev pub line_of : ℕ → PodRacer → Line
line_of i r = record { platz = i + 1; name = r.name; zeit = r.rennzeit }

-- The loop of printErgebnis, entered at i with so many rounds left.
print_loop : (rounds i : ℕ) → List PodRacer → Option (List Line)
print_loop zero i racer = some []
print_loop (suc rounds) i racer = elim (get_elem? racer i) [
  | none ↦ none
  | some r ↦ elim (print_loop rounds (i + 1) racer) [
    | none ↦ none
    | some lines ↦ some (line_of i r ∷ lines)
  ]
]

pub print_ergebnis : List PodRacer → Option (List Line)
unfolding print_loop
print_ergebnis racer = print_loop anzahl_racer 0 racer

-- The array `racer` after the threads were joined.
abbrev pub racers : Race → List PodRacer
racers s =
    let racer = λ (i : ℕ) (n : String).
      let r : PodRacer = record {
        name = n;
        rennzeit = pos (s.flights i).rennzeit;
        thread_id = i;
      } in
      r in
    racer 0 "Erster"
    ∷ racer 1 "Zweiter"
    ∷ racer 2 "Dritter"
    ∷ racer 3 "Vierter"
    ∷ racer 4 "Fuenfter"
    ∷ []

-- What `main` prints once the threads have returned: nothing after a crash.
unfoldable pub main : Race → Option (List Line)
main s =
    if s.crashed
    then some []
    else elim (sort (racers s) anzahl_racer) [ none ↦ none | some sorted ↦ print_ergebnis sorted ]

-- Places count up from the given one.
abbrev pub numbered : ℕ → List PodRacer → List Line
numbered i [] = []
numbered i (r ∷ rs) = line_of i r ∷ numbered (i + 1) rs

get-at : (ps xs : List PodRacer) (x : PodRacer) → get_elem? (ps ++ x ∷ xs) (length ps) ≡ some x
get-at [] xs x = refl
get-at (p ∷ ps) xs x = get-at ps xs x

print_loop-numbered :
    (n : ℕ) (ps xs : List PodRacer)
    → length xs ≡ n
    → print_loop n (length ps) (ps ++ xs) ≡ some (numbered (length ps) xs)
unfolding print_loop
print_loop-numbered zero ps [] e = refl
print_loop-numbered zero ps (x ∷ xs) e = absurd (omega arith)
print_loop-numbered (suc n) ps [] e = absurd (omega arith)
print_loop-numbered (suc n) ps (x ∷ xs) e =
    let next : length ps + 1 ≡ length (ps ++ x ∷ []) = omega (arith, length-append ps (x ∷ [])) in
    let rest : print_loop n (length ps + 1) (ps ++ x ∷ xs) ≡ some (numbered (length ps + 1) xs) =
      rw (next, ← append_assoc ps (x ∷ []) xs)
        (print_loop-numbered n (ps ++ x ∷ []) xs (omega arith)) in
    rw (get-at ps xs x, print_loop) (rw (rest, print_loop))

-- What `main` prints if nobody crashed: every racer of the array with its time, with the places
-- 1, 2, ... in order of time, racers of equal time in the order of the array.
main-numbered :
    (s : Race)
    → s.crashed ≡ false
    → (out : List PodRacer) × (main s ≡ some (numbered 0 out)) × IsRanking (racers s) out
unfolding main print_ergebnis
main-numbered s e =
    let (out, sorted, ranking) = sort-IsRanking (racers s) anzahl_racer (omega arith) in
    let five : length out ≡ 5 = ranking.size in
    (out, rw (e, sorted, main) (print_loop-numbered 5 [] out five), ranking)
