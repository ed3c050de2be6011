-- ===== src/Caesar/Rounds.antt =====
-- The counter of the loops of Praktikum_4/caesar.c: an `int` that is compared with a size_t.
use native.Mathlib.Decide.{dec_lt}
use ws2425_bs_praktikum.Base.{
  ℕ, zero, suc, ◌+◌, ◌-◌, ◌^◌, ◌<◌, ◌≤◌, ◌≡◌, ◌∙◌, sym, refl, ap, Option, none, some, List, arith,
  leb, if◌then◌else◌, get_elem?, set, Option-cases, inl, inr,
}
use ws2425_bs_praktikum.Base.Int.{pos, negsuc, add32, add32-pos}
use ws2425_bs_praktikum.Caesar.Cipher.{each_byte, loop_fuel}

-- `rounds` rounds from the index `i` on.
unfoldable pub each_round : (ℕ → ℕ) → (rounds i : ℕ) → List ℕ → Option (List ℕ)
each_round f zero i buffer = some buffer
each_round f (suc rounds) i buffer = elim (get_elem? buffer i) [
  | none ↦ none
  | some c ↦ each_round f rounds (i + 1) (set buffer i (f c))
]

-- The indices that are not negative, among them those below len.
abbrev pub rounds_of : (len : ℕ) → ℕ
rounds_of len = if leb len (2 ^ 31) then len else 2 ^ 31

-- A len up to which the loop stops at the first negative `i`, -2^31.
abbrev pub stops_at : ℕ
stops_at = 2 ^ 64 - 2 ^ 31

add32-last : add32 (pos (2 ^ 31 - 1)) (pos 1) ≡ negsuc (2 ^ 31 - 1)
unfolding add32
add32-last = refl

last_index : (i : ℕ) → suc i ≡ 2 ^ 31 → add32 (pos i) (pos 1) ≡ negsuc (2 ^ 31 - 1)
last_index i e =
    let same : i ≡ 2 ^ 31 - 1 = omega (arith, e) in
    ap (λ n. add32 (pos n) (pos 1)) same ∙ add32-last

-- The pass at the first negative `i`.
pass-negative :
    (f : ℕ → ℕ) (fuel len : ℕ) (buffer : List ℕ)
    → 0 < fuel
    → each_byte f fuel (negsuc (2 ^ 31 - 1)) len buffer
      ≡ (if leb len stops_at then some buffer else none)
unfolding each_byte
pass-negative f zero len buffer some_fuel = absurd (omega arith)
pass-negative f (suc fuel) len buffer some_fuel = ground arith

next_index : (i : ℕ) → suc i < 2 ^ 31 → add32 (pos i) (pos 1) ≡ pos (i + 1)
next_index i h = add32-pos i 1 (omega arith)

-- The pass at an index below len, where buffer[i] exists.
pass-next :
    (f : ℕ → ℕ) (fuel i len : ℕ) (buffer : List ℕ) {c : ℕ}
    → i < len
    → get_elem? buffer i ≡ some c
    → each_byte f (suc fuel) (pos i) len buffer
      ≡ each_byte f fuel (add32 (pos i) (pos 1)) len (set buffer i (f c))
unfolding each_byte
pass-next f fuel i len buffer lt here = ground arith

pass-out :
    (f : ℕ → ℕ) (fuel i len : ℕ) (buffer : List ℕ)
    → i < len
    → get_elem? buffer i ≡ none
    → each_byte f (suc fuel) (pos i) len buffer ≡ none
unfolding each_byte
pass-out f fuel i len buffer lt out = ground arith

pass-end :
    (f : ℕ → ℕ) (fuel i len : ℕ) (buffer : List ℕ)
    → len ≤ i
    → each_byte f (suc fuel) (pos i) len buffer ≡ some buffer
unfolding each_byte
pass-end f fuel i len buffer le = ground arith

-- What is left of the loop at an index.
abbrev rest_of : (ℕ → ℕ) → (len i : ℕ) → List ℕ → Option (List ℕ)
rest_of f len i buffer =
    if leb len stops_at then each_round f (rounds_of len - i) i buffer else none

rest-next :
    (f : ℕ → ℕ) (len i : ℕ) (buffer : List ℕ) {c : ℕ}
    → i < rounds_of len
    → get_elem? buffer i ≡ some c
    → rest_of f len i buffer ≡ rest_of f len (i + 1) (set buffer i (f c))
unfolding each_round
rest-next f len i buffer lt here =
    let more : rounds_of len - i ≡ suc (rounds_of len - (i + 1)) = omega arith in
    rw (more, each_round, here) refl

rest-out :
    (f : ℕ → ℕ) (len i : ℕ) (buffer : List ℕ)
    → i < rounds_of len
    → get_elem? buffer i ≡ none
    → rest_of f len i buffer ≡ none
unfolding each_round
rest-out f len i buffer lt out =
    let more : rounds_of len - i ≡ suc (rounds_of len - (i + 1)) = omega arith in
    ground (arith, more)

rest-end :
    (f : ℕ → ℕ) (len i : ℕ) (buffer : List ℕ)
    → rounds_of len ≤ i
    → rest_of f len i buffer ≡ (if leb len stops_at then some buffer else none)
unfolding each_round
rest-end f len i buffer le = let over : rounds_of len - i ≡ 0 = omega arith in rw over refl

pass-rest :
    (f : ℕ → ℕ) (fuel i len : ℕ) (buffer : List ℕ)
    → i < 2 ^ 31
    → 2 ^ 31 < fuel + i
    → each_byte f fuel (pos i) len buffer ≡ rest_of f len i buffer
pass-rest f zero i len buffer lt enough = absurd (omega arith)
pass-rest f (suc fuel) i len buffer lt enough = elim (dec_lt i len) [
  | no over ↦ pass-end f fuel i len buffer (omega arith) ∙ ground (arith, rest-end f len i buffer)
  | yes more ↦ elim (Option-cases (get_elem? buffer i)) [
    | inl out ↦
        rw (pass-out f fuel i len buffer more out, rest-out f len i buffer (ground arith) out)
    | inr (c, here) ↦
        rw (pass-next f fuel i len buffer more here, rest-next f len i buffer (ground arith) here)
          (elim (dec_lt (suc i) (2 ^ 31)) [
            | yes room ↦
                rw (next_index i room)
                  (pass-rest f fuel (i + 1) len (set buffer i (f c)) (omega arith) (omega arith))
            | no last ↦ rw (last_index i (omega arith)) (
                pass-negative f fuel len (set buffer i (f c)) (omega arith)
                ∙ sym (rest-end f len (i + 1) (set buffer i (f c)) (ground arith)))
          ])
  ]
]

-- With its fuel the loop comes to its end, whatever len is: it is one round for each index that is
-- not negative and below len, and then an access before the buffer, if len is that great.
pub each_byte-each_round :
    (f : ℕ → ℕ) (len : ℕ) (buffer : List ℕ)
    → each_byte f loop_fuel (pos 0) len buffer
      ≡ (if leb len stops_at then each_round f (rounds_of len) 0 buffer else none)
each_byte-each_round f len buffer =
    let all : rounds_of len - 0 ≡ rounds_of len = omega arith in
    pass-rest f loop_fuel 0 len buffer (omega arith) (omega arith) ∙ rw all refl
