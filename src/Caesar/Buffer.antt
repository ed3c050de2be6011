-- ===== src/Caesar/Buffer.antt =====
-- The loops of `encrypt` and `decrypt` of Praktikum_4/caesar.c over a whole buffer.
use mathlib.Core.Option
use mathlib.Core.List.{append_assoc}
use ws2425_bs_praktikum.Base.{
  ℕ, ◌-◌, ◌^◌, ◌&&◌, if◌then◌else◌, leb, Option-cases, inl, inr, zero, suc, ◌+◌, ◌<◌, ◌≤◌, ◌≡◌, ◌∙◌,
  ap, refl, length-append, Option, none, some, List, [], ◌∷◌, ◌++◌, map, arith, length, take, drop,
  get_elem?, set, length-set,
}
use ws2425_bs_praktikum.Base.Int.{ℤ, pos}
use ws2425_bs_praktikum.Caesar.Cipher.{
  encrypt_byte, decrypt_byte, each_byte, loop_fuel, encrypt, decrypt,
}
use ws2425_bs_praktikum.Caesar.Rounds.{each_round, rounds_of, stops_at, each_byte-each_round}
use ws2425_bs_praktikum.Caesar.Roundtrip.{Restores}

abbrev pub Bytes : List ℕ → Type 0
Bytes [] = Unit
Bytes (c ∷ cs) = (c < 256) × Bytes cs

-- The first `n` elements go through `f`; `none` if there are fewer.
map_first : (ℕ → ℕ) → ℕ → List ℕ → Option (List ℕ)
map_first f zero xs = some xs
map_first f (suc n) [] = none
map_first f (suc n) (x ∷ xs) = Option.map (λ ys. f x ∷ ys) (map_first f n xs)

get_elem?-middle : (ps xs : List ℕ) (x : ℕ) → get_elem? (ps ++ x ∷ xs) (length ps) ≡ some x
get_elem?-middle [] xs x = refl
get_elem?-middle (p ∷ ps) xs x = get_elem?-middle ps xs x

set-middle : (ps xs : List ℕ) (x y : ℕ) → set (ps ++ x ∷ xs) (length ps) y ≡ ps ++ y ∷ xs
set-middle [] xs x y = refl
set-middle (p ∷ ps) xs x y = ap (◌∷◌ p) (set-middle ps xs x y)

get_elem?-end : (ps : List ℕ) → get_elem? (ps ++ []) (length ps) ≡ none
get_elem?-end [] = refl
get_elem?-end (p ∷ ps) = get_elem?-end ps

-- The index that goes up through the buffer meets the recursion on what is left of it.
each_round-append :
    (f : ℕ → ℕ) (n : ℕ) (ps xs : List ℕ)
    → each_round f n (length ps) (ps ++ xs) ≡ Option.map (λ ys. ps ++ ys) (map_first f n xs)
unfolding each_round map_first
each_round-append f zero ps xs = refl
each_round-append f (suc n) ps [] = rw (get_elem?-end ps, each_round)
each_round-append f (suc n) ps (x ∷ xs) =
    let next : length ps + 1 ≡ length (ps ++ f x ∷ []) =
      omega (arith, length-append ps (f x ∷ [])) in
    rw (get_elem?-middle ps xs x, each_round)
      (rw (set-middle ps xs x (f x), next, ← append_assoc ps (f x ∷ []) xs)
        (each_round-append f n (ps ++ f x ∷ []) xs ∙ regroup (map_first f n xs)))
  where
    regroup :
        (o : Option (List ℕ))
        → Option.map (λ ys. (ps ++ f x ∷ []) ++ ys) o
          ≡ Option.map (λ ys. ps ++ ys) (Option.map (λ ys. f x ∷ ys) o)
    regroup none = refl
    regroup (some ys) = ap some (append_assoc ps (f x ∷ []) ys)

map_first_lem :
    (f : ℕ → ℕ) (n : ℕ) (xs : List ℕ)
    → n ≤ length xs
    → map_first f n xs ≡ some (map f (take n xs) ++ drop n xs)
unfolding map_first
map_first_lem f zero xs h = refl
map_first_lem f (suc n) [] h = elim h [ ]
map_first_lem f (suc n) (x ∷ xs) h = rw (map_first_lem f n xs (omega arith))

map_first-short : (f : ℕ → ℕ) (n : ℕ) (xs : List ℕ) → length xs < n → map_first f n xs ≡ none
unfolding map_first
map_first-short f zero xs h = elim h [ ]
map_first-short f (suc n) [] h = refl
map_first-short f (suc n) (x ∷ xs) h = rw (map_first-short f n xs (omega arith))

map_id : {A : Type 0} (o : Option A) → Option.map (λ (a : A). a) o ≡ o
map_id none = refl
map_id (some a) = refl

each_round_lem : (f : ℕ → ℕ) (n : ℕ) (xs : List ℕ) → each_round f n 0 xs ≡ map_first f n xs
each_round_lem f n xs = each_round-append f n [] xs ∙ map_id (map_first f n xs)

each_round-map :
    (f : ℕ → ℕ) (n : ℕ) (xs : List ℕ)
    → each_round f n 0 xs
      ≡ (if leb n (length xs) then some (map f (take n xs) ++ drop n xs) else none)
each_round-map f n xs =
    rw (each_round_lem f n xs) (ground (arith, map_first_lem f n xs, map_first-short f n xs))

-- The loop over a whole buffer: what the first of its bytes become.
loop-map :
    (f : ℕ → ℕ) (buffer : List ℕ) (len : ℕ)
    → each_byte f loop_fuel (pos 0) len buffer ≡ (
        if leb len stops_at && leb (rounds_of len) (length buffer)
        then some (map f (take (rounds_of len) buffer) ++ drop (rounds_of len) buffer)
        else none)
loop-map f buffer len =
    each_byte-each_round f len buffer ∙ ground (arith, each_round-map f (rounds_of len) buffer)

-- `encrypt` and `decrypt` on a buffer, for every len: their int i goes up to 2^31 - 1 and then is
-- negative, which as a size_t is 2^64 - 2^31. They replace each of the first len bytes, at most
-- 2^31, by its code or its meaning and leave the others; they reach outside the buffer, which is
-- `none`, exactly if it has fewer bytes than that or len is greater than 2^64 - 2^31.
pub buffers-map :
    (s : ℤ) (buffer : List ℕ) (len : ℕ)
    → (encrypt s buffer len ≡ (
        if leb len (2 ^ 64 - 2 ^ 31) && leb (rounds_of len) (length buffer)
        then some
            (map (encrypt_byte s) (take (rounds_of len) buffer) ++ drop (rounds_of len) buffer)
        else none))
      × (decrypt s buffer len ≡ (
          if leb len (2 ^ 64 - 2 ^ 31) && leb (rounds_of len) (length buffer)
          then some
              (map (decrypt_byte s) (take (rounds_of len) buffer) ++ drop (rounds_of len) buffer)
          else none))
unfolding encrypt decrypt
buffers-map s buffer len =
    (loop-map (encrypt_byte s) buffer len, loop-map (decrypt_byte s) buffer len)

-- Where `i` stays an index.
pub encrypt-map :
    (s : ℤ) (buffer : List ℕ) (len : ℕ)
    → len ≤ 2 ^ 31
    → encrypt s buffer len ≡ (
        if leb len (length buffer)
        then some (map (encrypt_byte s) (take len buffer) ++ drop len buffer)
        else none)
unfolding encrypt
encrypt-map s buffer len h = loop-map (encrypt_byte s) buffer len ∙ ground arith

pub decrypt-map :
    (s : ℤ) (buffer : List ℕ) (len : ℕ)
    → len ≤ 2 ^ 31
    → decrypt s buffer len ≡ (
        if leb len (length buffer)
        then some (map (decrypt_byte s) (take len buffer) ++ drop len buffer)
        else none)
unfolding decrypt
decrypt-map s buffer len h = loop-map (decrypt_byte s) buffer len ∙ ground arith

-- What `Restores` says of a byte, for a text.
pub map-Restores :
    (s : ℤ) (cs : List ℕ)
    → Restores s
    → Bytes cs
    → map (decrypt_byte s) (map (encrypt_byte s) cs) ≡ cs
map-Restores s [] r b = refl
map-Restores s (c ∷ cs) r (hc, hcs) = rw (r c hc, map-Restores s cs r hcs)

length-each_round :
    (f : ℕ → ℕ) (n i : ℕ) (xs : List ℕ) {ys : List ℕ}
    → each_round f n i xs ≡ some ys
    → length ys ≡ length xs
unfolding each_round
length-each_round f zero i xs e = ground arith
length-each_round f (suc n) i xs e = elim (Option-cases (get_elem? xs i)) [
  | inl out ↦ cc (rw (out, each_round) at e)
  | inr (c, here) ↦
      length-each_round f n (i + 1) (set xs i (f c)) (rw (here, each_round) at e)
      ∙ length-set xs i (f c)
]

length-loop :
    (f : ℕ → ℕ) (buffer : List ℕ) (len : ℕ) {done : List ℕ}
    → each_byte f loop_fuel (pos 0) len buffer ≡ some done
    → length done ≡ length buffer
length-loop f buffer len {done} e =
    let same = each_byte-each_round f len buffer in
    ground (arith, same, length-each_round f (rounds_of len) 0 buffer {ys = done})

-- Neither loop changes the size of the buffer.
pub length-encrypt :
    (s : ℤ) (buffer : List ℕ) (len : ℕ) {done : List ℕ}
    → encrypt s buffer len ≡ some done
    → length done ≡ length buffer
unfolding encrypt
length-encrypt s buffer len e = length-loop (encrypt_byte s) buffer len e

pub length-decrypt :
    (s : ℤ) (buffer : List ℕ) (len : ℕ) {done : List ℕ}
    → decrypt s buffer len ≡ some done
    → length done ≡ length buffer
unfolding decrypt
length-decrypt s buffer len e = length-loop (decrypt_byte s) buffer len e
