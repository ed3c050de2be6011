-- ===== src/Race/Bubble.antt =====
-- The inner loop of `sort` of Praktikum 2 Aufg 2/main.c as a recursion on the list, and what one
-- pass does: it carries a slowest racer to the end.
use mathlib.Core.List.{Perm, append_assoc}
use mathlib.Core.List.Perm
use ws2425_bs_praktikum.Base.{
  ℕ, zero, suc, ◌+◌, ◌<◌, ◌≡◌, refl, ap, ◌∙◌, inl, inr, Bool, false, ◌||◌, Option, some, List, [],
  ◌∷◌, ◌++◌, arith, if◌then◌else◌, get_elem?, length, length-append, Bool-cases,
}
use ws2425_bs_praktikum.Base.Int.{ℤ, ltb_ℤ, ◌≤ℤ◌, eqb_ℤ}
use ws2425_bs_praktikum.Race.Sort.{PodRacer, swap, compare_at, sort_pass}

abbrev pub All {ℓ κ} : {A : Type ℓ} → (A → Type κ) → List A → Type κ
All P [] = Unit
All P (x ∷ xs) = P x × All P xs

abbrev pub IsBelow : PodRacer → PodRacer → Type 0
IsBelow x y = x.rennzeit ≤ℤ y.rennzeit

-- k comparisons of neighbours from the front, and whether one exchanged them.
unfoldable pub bubble : ℕ → List PodRacer → List PodRacer × Bool
bubble zero xs = (xs, false)
bubble (suc k) [] = ([], false)
bubble (suc k) (x ∷ []) = (x ∷ [], false)
bubble (suc k) (x ∷ y ∷ xs) =
    let late = ltb_ℤ y.rennzeit x.rennzeit in
    let (rest, swapped) = bubble k ((if late then x else y) ∷ xs) in
    ((if late then y else x) ∷ rest, late || swapped)

get-middle : (ps xs : List PodRacer) (x : PodRacer) → get_elem? (ps ++ x ∷ xs) (length ps) ≡ some x
get-middle [] xs x = refl
get-middle (p ∷ ps) xs x = get-middle ps xs x

get-next :
    (ps xs : List PodRacer) (x y : PodRacer) → get_elem? (ps ++ x ∷ y ∷ xs) (length ps + 1) ≡ some y
get-next [] xs x y = ground arith
get-next (p ∷ ps) xs x y = ground (arith, get-next ps xs x y)

swap-middle :
    (ps xs : List PodRacer) (x y : PodRacer)
    → swap (ps ++ x ∷ y ∷ xs) (length ps) (length ps + 1) x y ≡ ps ++ y ∷ x ∷ xs
swap-middle [] xs x y = ground arith
swap-middle (p ∷ ps) xs x y = ground (arith, swap-middle ps xs x y)

compare_at-middle :
    (ps xs : List PodRacer) (x y : PodRacer) (b : Bool)
    → compare_at (length ps) (ps ++ x ∷ y ∷ xs) b ≡ (
        let late = ltb_ℤ y.rennzeit x.rennzeit in
        some (ps ++ (if late then y else x) ∷ (if late then x else y) ∷ xs, late || b))
unfolding compare_at
compare_at-middle ps xs x y b =
    ground (arith, get-middle ps (y ∷ xs) x, get-next ps xs x y, swap-middle ps xs x y)

or_swap : (b c d : Bool) → (b || (c || d)) ≡ ((c || b) || d)
or_swap b c d = ground arith

regroup :
    (ps rest : List PodRacer) (first : PodRacer) (late b c : Bool)
    → ◌≡◌ {A = Option (List PodRacer × Bool)}
        (some ((ps ++ first ∷ []) ++ rest, b || (late || c)))
        (some (ps ++ first ∷ rest, (late || b) || c))
regroup ps rest first late b c = rw (append_assoc ps (first ∷ []) rest, or_swap b late c)

-- The pass over the array is `bubble` on what lies from j on.
pub sort_pass-bubble :
    (k : ℕ) (ps xs : List PodRacer) (b : Bool)
    → k < length xs
    → sort_pass k (length ps) (ps ++ xs) b ≡ some (ps ++ (bubble k xs).0, (bubble k xs).1 || b)
unfolding sort_pass bubble
sort_pass-bubble zero ps xs b h = refl
sort_pass-bubble (suc k) ps [] b h = elim h [ ]
sort_pass-bubble (suc k) ps (x ∷ []) b h = absurd (omega arith)
sort_pass-bubble (suc k) ps (x ∷ y ∷ xs) b h =
    let late = ltb_ℤ y.rennzeit x.rennzeit in
    let first = if late then y else x in
    let second = if late then x else y in
    let next : length ps + 1 ≡ length (ps ++ first ∷ []) =
      omega (arith, length-append ps (first ∷ [])) in
    rw (compare_at-middle ps xs x y b, sort_pass)
      (rw (next, ← append_assoc ps (first ∷ []) (second ∷ xs))
        (sort_pass-bubble k (ps ++ first ∷ []) (second ∷ xs) (late || b) (omega arith)
          ∙ regroup ps (bubble k (second ∷ xs)).0 first late (bubble k (second ∷ xs)).1 b))

pub length-bubble : (k : ℕ) (xs : List PodRacer) → length (bubble k xs).0 ≡ length xs
unfolding bubble
length-bubble zero xs = refl
length-bubble (suc k) [] = refl
length-bubble (suc k) (x ∷ []) = refl
length-bubble (suc k) (x ∷ y ∷ xs) =
    ap suc (length-bubble k ((if ltb_ℤ y.rennzeit x.rennzeit then x else y) ∷ xs))

pub bubble-perm : (k : ℕ) (xs : List PodRacer) → Perm (bubble k xs).0 xs
unfolding bubble
bubble-perm zero xs = Perm.rfl
bubble-perm (suc k) [] = Perm.rfl
bubble-perm (suc k) (x ∷ []) = Perm.rfl
bubble-perm (suc k) (x ∷ y ∷ xs) = elim (Bool-cases (ltb_ℤ y.rennzeit x.rennzeit)) [
  | inl late ↦ rw late (Perm.trans (Perm.cons y (bubble-perm k (x ∷ xs))) (Perm.swap x y xs))
  | inr early ↦ rw early (Perm.cons x (bubble-perm k (y ∷ xs)))
]

pub All-bubble :
    (P : PodRacer → Type 0) (k : ℕ) (xs : List PodRacer) → All P xs → All P (bubble k xs).0
unfolding bubble
All-bubble P zero xs a = a
All-bubble P (suc k) [] a = a
All-bubble P (suc k) (x ∷ []) a = a
All-bubble P (suc k) (x ∷ y ∷ xs) (px, (py, a)) = elim (Bool-cases (ltb_ℤ y.rennzeit x.rennzeit)) [
  | inl late ↦ rw late (py, All-bubble P k (x ∷ xs) (px, a))
  | inr early ↦ rw early (px, All-bubble P k (y ∷ xs) (py, a))
]

-- What follows the compared part does not move.
pub bubble-append :
    (k : ℕ) (xs ys : List PodRacer)
    → k < length xs
    → bubble k (xs ++ ys) ≡ ((bubble k xs).0 ++ ys, (bubble k xs).1)
unfolding bubble
bubble-append zero xs ys h = refl
bubble-append (suc k) [] ys h = elim h [ ]
bubble-append (suc k) (x ∷ []) ys h = absurd (omega arith)
bubble-append (suc k) (x ∷ y ∷ xs) ys h =
    ground (arith, bubble-append k (x ∷ xs) ys, bubble-append k (y ∷ xs) ys)

-- The racers with a given time, in their order.
pub with_time : ℤ → List PodRacer → List PodRacer
with_time t [] = []
with_time t (x ∷ xs) = if eqb_ℤ x.rennzeit t then x ∷ with_time t xs else with_time t xs

pub with_time-append :
    (t : ℤ) (xs ys : List PodRacer) → with_time t (xs ++ ys) ≡ with_time t xs ++ with_time t ys
unfolding with_time
with_time-append t [] ys = refl
with_time-append t (x ∷ xs) ys = ground (arith, with_time-append t xs ys)

pub with_time-bubble :
    (t : ℤ) (k : ℕ) (xs : List PodRacer) → with_time t (bubble k xs).0 ≡ with_time t xs
unfolding bubble with_time
with_time-bubble t zero xs = refl
with_time-bubble t (suc k) [] = refl
with_time-bubble t (suc k) (x ∷ []) = refl
with_time-bubble t (suc k) (x ∷ y ∷ xs) =
    ground (arith, with_time-bubble t k (x ∷ xs), with_time-bubble t k (y ∷ xs))

-- A pass over the whole list leaves a slowest racer last.
pub record Carried (x : PodRacer) (k : ℕ) (rs : List PodRacer) : Type 0 where
  pub others : List PodRacer
  pub last : PodRacer
  pub split : rs ≡ others ++ last ∷ []
  pub count : length others ≡ k
  pub below : All (λ o. IsBelow o last) others
  pub head : IsBelow x last

pub bubble-Carried :
    (k : ℕ) (x : PodRacer) (xs : List PodRacer) → length xs ≡ k → Carried x k (bubble k (x ∷ xs)).0
unfolding bubble
bubble-Carried zero x [] e = record {
  others = [];
  last = x;
  split = refl;
  count = refl;
  below = tt;
  head = omega arith;
}
bubble-Carried zero x (y ∷ xs) e = absurd (omega arith)
bubble-Carried (suc k) x [] e = absurd (omega arith)
bubble-Carried (suc k) x (y ∷ xs) e = elim (Bool-cases (ltb_ℤ y.rennzeit x.rennzeit)) [
  | inl late ↦ rw late (
      let c = bubble-Carried k x xs (omega arith) in
      record {
        others = y ∷ c.others;
        last = c.last;
        split = ap (◌∷◌ y) c.split;
        count = ap suc c.count;
        below = (ground arith, c.below);
        head = c.head;
      })
  | inr early ↦ rw early (
      let c = bubble-Carried k y xs (omega arith) in
      record {
        others = x ∷ c.others;
        last = c.last;
        split = ap (◌∷◌ x) c.split;
        count = ap suc c.count;
        below = (ground arith, c.below);
        head = ground arith;
      })
]
