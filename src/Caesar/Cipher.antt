-- ===== src/Caesar/Cipher.antt =====
-- The functions `encrypt` and `decrypt` of Praktikum_4/caesar.c. A `char` of the kernel is an
-- unsigned byte, a number below 256; the parameter translate_shift is an `int`.
use ws2425_bs_praktikum.Base.{
  ℕ, zero, suc, ◌+◌, ◌-◌, ◌^◌, Bool, true, false, ◌&&◌, ◌||◌, Option, none, some, List, ltb, leb,
  ◌==◌, if◌then◌else◌, get_elem?, set,
}
use ws2425_bs_praktikum.Base.Int.{ℤ, pos, negsuc, pos_part, add32, sub32, to_char, ltb_ℤ, eqb_ℤ}

abbrev pub space : ℕ
space = 32

-- The test of lines 54 and 82: bytes that both loops leave alone.
abbrev is_untreated : ℕ → Bool
is_untreated c = ltb c 65 || (ltb 90 c && ltb c 97) || ltb 122 c

-- One round of the loop of `encrypt`: the new value of buffer[i].
unfoldable pub encrypt_byte : ℤ → ℕ → ℕ
encrypt_byte translate_shift c =
    if c == space
    then to_char (add32 (pos 96) translate_shift)
    else if is_untreated c
    then c
    else let shifted = add32 (pos c) translate_shift in
      if eqb_ℤ shifted (pos 91)
      then space
      else if ltb_ℤ (pos 122) shifted
      then to_char (sub32 shifted (pos 58))
      else if ltb_ℤ (pos 90) shifted && leb c 90
      then to_char (add32 shifted (pos 5))
      else to_char shifted

-- One round of the loop of `decrypt`.
unfoldable pub decrypt_byte : ℤ → ℕ → ℕ
decrypt_byte translate_shift c =
    if c == space
    then to_char (sub32 (pos 91) translate_shift)
    else if is_untreated c
    then c
    else let shifted = sub32 (pos c) translate_shift in
      if eqb_ℤ shifted (pos 96)
      then space
      else if ltb_ℤ shifted (pos 65) && leb c 90
      then to_char (add32 shifted (pos 58))
      else if ltb_ℤ shifted (pos 97) && leb 97 c
      then to_char (sub32 shifted (pos 5))
      else to_char shifted

-- The conversion of an `int` to size_t, for the test `i < len`.
abbrev pub to_size : ℤ → ℕ
to_size (pos n) = n
to_size (negsuc n) = 2 ^ 64 - 1 - n

-- buffer[i]; before the buffer and behind its end is `none`.
abbrev pub char_at : List ℕ → ℤ → Option ℕ
char_at buffer (pos i) = get_elem? buffer i
char_at buffer (negsuc i) = none

-- The loop `for (int i = 0; i < len; i++)`, entered at `i`; `none` for an access outside the buffer
-- or without fuel.
unfoldable pub each_byte : (ℕ → ℕ) → (fuel : ℕ) (i : ℤ) (len : ℕ) → List ℕ → Option (List ℕ)
each_byte f zero i len buffer = none
each_byte f (suc fuel) i len buffer = elim (ltb (to_size i) len) [
  | false ↦ some buffer
  | true ↦ elim (char_at buffer i) [
    | none ↦ none
    | some c ↦ each_byte f fuel (add32 i (pos 1)) len (set buffer (pos_part i) (f c))
  ]
]

-- One pass for each value of `i` that is not negative, and one for the test behind them.
abbrev pub loop_fuel : ℕ
loop_fuel = 2 ^ 31 + 1

unfoldable pub encrypt : ℤ → List ℕ → ℕ → Option (List ℕ)
encrypt translate_shift buffer len =
    each_byte (encrypt_byte translate_shift) loop_fuel (pos 0) len buffer

unfoldable pub decrypt : ℤ → List ℕ → ℕ → Option (List ℕ)
decrypt translate_shift buffer len =
    each_byte (decrypt_byte translate_shift) loop_fuel (pos 0) len buffer
