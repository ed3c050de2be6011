-- ===== src/Race/Ranking.antt =====
-- What `sort` of Praktikum 2 Aufg 2/main.c does: the outer loop puts a slowest racer behind the
-- others once a round, or stops at a round without an exchange.
use mathlib.Core.List.{Perm, append_assoc, append-nil}
use mathlib.Core.List.Perm
use ws2425_bs_praktikum.Base.{
  ℕ, zero, suc, ◌||◌, ◌+◌, ◌-◌, ◌<◌, ◌≡◌, refl, ap, ◌∙◌, inl, inr, Bool, true, false, some, List,
  [], ◌∷◌, ◌++◌, arith, length, length-append, Bool-cases,
}
use ws2425_bs_praktikum.Base.Int.{ℤ, ltb_ℤ}
use ws2425_bs_praktikum.Race.Sort.{PodRacer, sort_pass, sort_loop, sort}
use ws2425_bs_praktikum.Race.Bubble.{
  All, IsBelow, bubble, sort_pass-bubble, length-bubble, bubble-perm, All-bubble, bubble-append,
  with_time, with_time-append, with_time-bubble, bubble-Carried,
}
use ws2425_bs_praktikum.Race.Order.{
  IsSorted, Before, All-IsBelow, All-front, All-back, IsSorted-append, Before-cons, Before-nil,
}

-- A pass over the whole list with no exchange changes nothing, and the list is in order.
unswapped :
    (k : ℕ) (x : PodRacer) (xs : List PodRacer)
    → length xs ≡ k
    → (bubble k (x ∷ xs)).1 ≡ false
    → ((bubble k (x ∷ xs)).0 ≡ x ∷ xs) × IsSorted (x ∷ xs)
unfolding bubble
unswapped zero x [] e h = (refl, (tt, tt))
unswapped zero x (y ∷ xs) e h = absurd (omega arith)
unswapped (suc k) x [] e h = absurd (omega arith)
unswapped (suc k) x (y ∷ xs) e h = elim (Bool-cases (ltb_ℤ y.rennzeit x.rennzeit)) [
  | inl late ↦ cc (rw late at h)
  | inr early ↦
      let h' : (bubble k (y ∷ xs)).1 ≡ false = rw early at h in
      let (same, (a, s)) = unswapped k y xs (omega arith) h' in
      let xy : IsBelow x y = ground arith in
      (rw early (ap (◌∷◌ x) same), ((xy, All-IsBelow x y xs xy a), (a, s)))
]

-- The result of the sort: in order, the same racers, and those of equal time as they stood.
pub record IsRanking (arr out : List PodRacer) : Type 0 where
  pub sorted : IsSorted out
  pub same : Perm out arr
  pub size : length out ≡ length arr
  pub stable : (t : ℤ) → with_time t out ≡ with_time t arr

Ranking_of_bubble :
    (k : ℕ) (front back out : List PodRacer)
    → IsRanking ((bubble k front).0 ++ back) out
    → IsRanking (front ++ back) out
Ranking_of_bubble k front back out r = record {
  sorted = r.sorted;
  same = Perm.trans r.same (Perm.append_right back (bubble-perm k front));
  size = omega (
    arith,
    r.size,
    length-append (bubble k front).0 back,
    length-append front back,
    length-bubble k front,
  );
  stable = λ t.
      r.stable t
      ∙ rw (
        with_time-append t (bubble k front).0 back,
        with_time-append t front back,
        with_time-bubble t k front,
      );
}

-- The array after some rounds: the front is still to be ranked, the back is.
record IsSplit (front back : List PodRacer) : Type 0 where
  ranked : IsSorted back
  before : Before front back

Split_of_bubble :
    (k : ℕ) (x : PodRacer) (xs back : List PodRacer)
    → length xs ≡ suc k
    → IsSplit (x ∷ xs) back
    → (others : List PodRacer) × (last : PodRacer) × ((bubble (suc k) (x ∷ xs)).0
        ≡ others ++ last ∷ [])
      × (length others ≡ suc k)
      × IsSplit others (last ∷ back)
Split_of_bubble k x xs back e s =
    let c = bubble-Carried (suc k) x xs e in
    let moved = All-bubble (λ r. All (IsBelow r) back) (suc k) (x ∷ xs) s.before in
    let moved' : Before (c.others ++ c.last ∷ []) back = rw c.split at moved in
    (
      c.others,
      c.last,
      c.split,
      c.count,
      record {
        ranked = ((All-back _ c.others (c.last ∷ []) moved').0, s.ranked);
        before =
            Before-cons c.others back c.last c.below (All-front _ c.others (c.last ∷ []) moved');
      },
    )

pass_lem :
    (k : ℕ) (front back : List PodRacer)
    → k < length front
    → sort_pass k 0 (front ++ back) false ≡ some ((bubble k front).0 ++ back, (bubble k front).1)
pass_lem k front back h =
    sort_pass-bubble k [] (front ++ back) false (omega (arith, length-append front back))
    ∙ rw (bubble-append k front back h)
        (ap some (or_none (bubble k front).0 back (bubble k front).1))
  where
    or_none :
        (xs ys : List PodRacer) (b : Bool)
        → ◌≡◌ {A = List PodRacer × Bool} (xs ++ ys, b || false) (xs ++ ys, b)
    or_none xs ys true = refl
    or_none xs ys false = refl

module _ (r i n k : ℕ) (front back : List PodRacer) (rounds : n - i - 1 ≡ k)
    (h : k < length front) where
  round_swapped :
      (bubble k front).1 ≡ true
      → sort_loop (suc r) i n (front ++ back) ≡ sort_loop r (i + 1) n ((bubble k front).0 ++ back)
  unfolding sort_loop
  round_swapped e = rw (rounds, pass_lem k front back h, e, sort_loop)

  round_still :
      (bubble k front).1 ≡ false
      → sort_loop (suc r) i n (front ++ back) ≡ some ((bubble k front).0 ++ back)
  unfolding sort_loop
  round_still e = rw (rounds, pass_lem k front back h, e, sort_loop)

sort_loop-IsRanking :
    (r i n : ℕ) (front back : List PodRacer)
    → length front ≡ suc r
    → length back ≡ i
    → n ≡ suc r + i
    → IsSplit front back
    → (out : List PodRacer) × (sort_loop r i n (front ++ back) ≡ some out)
      × IsRanking (front ++ back) out
unfolding sort_loop
sort_loop-IsRanking r i n [] back e f g s = absurd (omega arith)
sort_loop-IsRanking zero i n (x ∷ []) back e f g s = (
  x ∷ back,
  refl,
  record { sorted = (s.before.0, s.ranked); same = Perm.rfl; size = refl; stable = λ t. refl },
)
sort_loop-IsRanking zero i n (x ∷ y ∷ xs) back e f g s = absurd (omega arith)
sort_loop-IsRanking (suc r) i n (x ∷ xs) back e f g s =
    let front = x ∷ xs in
    let many : length xs ≡ suc r = omega arith in
    let rounds : n - i - 1 ≡ suc r = omega arith in
    let inside : suc r < length front = omega arith in
    elim (Bool-cases (bubble (suc r) front).1) [
      | inl swapped ↦
          let (others, last, split, count, s') = Split_of_bubble r x xs back many s in
          let joined : (bubble (suc r) front).0 ++ back ≡ others ++ last ∷ back =
            rw split (append_assoc others (last ∷ []) back) in
          let (out, runs, ranking) =
            sort_loop-IsRanking r (i + 1) n others (last ∷ back) count (omega arith) (omega arith)
              s' in
          (
            out,
            round_swapped r i n (suc r) front back rounds inside swapped ∙ rw joined runs,
            Ranking_of_bubble (suc r) front back out (rw joined ranking),
          )
      | inr still ↦
          let (same, sorted) = unswapped (suc r) x xs many still in
          (
            front ++ back,
            round_still r i n (suc r) front back rounds inside still ∙ rw same,
            record {
              sorted = IsSorted-append front back sorted s.before s.ranked;
              same = Perm.rfl;
              size = refl;
              stable = λ t. refl;
            },
          )
    ]

-- `sort` of a whole array, with the number of its elements: it ends without an access outside the
-- array; the result is in order of time, has the same racers, and racers of equal time keep their
-- order.
pub sort-IsRanking :
    (arr : List PodRacer) (n : ℕ)
    → n ≡ length arr
    → (out : List PodRacer) × (sort arr n ≡ some out) × IsRanking arr out
unfolding sort sort_loop
sort-IsRanking [] zero e =
    ([], refl, record { sorted = tt; same = Perm.rfl; size = refl; stable = λ t. refl })
sort-IsRanking [] (suc n) e = absurd (omega arith)
sort-IsRanking (x ∷ xs) n e =
    let arr = x ∷ xs in
    let (out, runs, ranking) =
      sort_loop-IsRanking (n - 1) 0 n arr [] (omega arith) refl (omega arith)
        (record { ranked = tt; before = Before-nil arr }) in
    (out, rw append-nil at runs, rw append-nil at ranking)
