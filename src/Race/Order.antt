-- ===== src/Race/Order.antt =====
-- Lists of racers in the order of their time, for the sort of Praktikum 2 Aufg 2/main.c.
use ws2425_bs_praktikum.Base.{List, [], ◌∷◌, ◌++◌, arith}
use ws2425_bs_praktikum.Race.Sort.{PodRacer}
use ws2425_bs_praktikum.Race.Bubble.{All, IsBelow}

abbrev pub IsSorted : List PodRacer → Type 0
IsSorted [] = Unit
IsSorted (x ∷ xs) = All (IsBelow x) xs × IsSorted xs

-- Every racer of the first list is at most as slow as every one of the second.
abbrev pub Before : List PodRacer → List PodRacer → Type 0
Before xs ys = All (λ x. All (IsBelow x) ys) xs

pub All-IsBelow :
    (x y : PodRacer) (xs : List PodRacer) → IsBelow x y → All (IsBelow y) xs → All (IsBelow x) xs
All-IsBelow x y [] h a = tt
All-IsBelow x y (z ∷ xs) h (p, a) = (omega arith, All-IsBelow x y xs h a)

pub All-append {ℓ} :
    (P : PodRacer → Type ℓ) (xs ys : List PodRacer) → All P xs → All P ys → All P (xs ++ ys)
All-append P [] ys a b = b
All-append P (x ∷ xs) ys (p, a) b = (p, All-append P xs ys a b)

pub All-front {ℓ} : (P : PodRacer → Type ℓ) (xs ys : List PodRacer) → All P (xs ++ ys) → All P xs
All-front P [] ys a = tt
All-front P (x ∷ xs) ys (p, a) = (p, All-front P xs ys a)

pub All-back {ℓ} : (P : PodRacer → Type ℓ) (xs ys : List PodRacer) → All P (xs ++ ys) → All P ys
All-back P [] ys a = a
All-back P (x ∷ xs) ys (p, a) = All-back P xs ys a

pub IsSorted-append :
    (xs ys : List PodRacer) → IsSorted xs → Before xs ys → IsSorted ys → IsSorted (xs ++ ys)
IsSorted-append [] ys s b t = t
IsSorted-append (x ∷ xs) ys (a, s) (p, b) t =
    (All-append (IsBelow x) xs ys a p, IsSorted-append xs ys s b t)

pub Before-cons :
    (xs ys : List PodRacer) (m : PodRacer)
    → All (λ x. IsBelow x m) xs
    → Before xs ys
    → Before xs (m ∷ ys)
Before-cons [] ys m a b = tt
Before-cons (x ∷ xs) ys m (p, a) (q, b) = ((p, q), Before-cons xs ys m a b)

pub Before-nil : (xs : List PodRacer) → Before xs []
Before-nil [] = tt
Before-nil (x ∷ xs) = (tt, Before-nil xs)
