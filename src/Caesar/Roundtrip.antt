-- ===== src/Caesar/Roundtrip.antt =====
-- `decrypt` after `encrypt` of Praktikum_4/caesar.c, byte by byte: for which values of the module
-- parameter translate_shift it gives the text back.
use ws2425_bs_praktikum.Base.{ℕ, ◌⊎◌, ◌+◌, ◌-◌, ◌≤◌, ◌<◌, ◌≡◌, refl, ◌≢◌, ◌↔◌, ◌∙◌, ap, arith}
use ws2425_bs_praktikum.Base.Int.{
  ℤ, pos, negsuc, pos_part, neg_part, IsInt, add32, sub32, to_char, to_char-lt, to_char-pos,
  to_char-add32, to_char-sub32, sub32-eq_pos,
}
use ws2425_bs_praktikum.Caesar.Cipher.{encrypt_byte, decrypt_byte}
use ws2425_bs_praktikum.Caesar.Alphabet.{
  rotate, encrypt_byte-rotate, decrypt_byte-rotate, rotate-rotate, rotate_byte,
}

abbrev pub Restores : ℤ → Type 0
Restores s = (c : ℕ) → c < 256 → decrypt_byte s (encrypt_byte s c) ≡ c

range-Restores : (k : ℕ) → 1 ≤ k → k ≤ 26 → Restores (pos k)
range-Restores k lo hi c byte =
    ap (decrypt_byte (pos k)) (encrypt_byte-rotate k c lo hi byte)
    ∙ (decrypt_byte-rotate k (rotate k c) lo hi (rotate_byte k c byte)
        ∙ rotate-rotate k c (omega arith))

module _ (s : ℤ) (int : IsInt s) where
  abbrev coded : ℕ
  coded = to_char (add32 (pos 96) s)

  -- What the space alone says of the shift: it is the encrypted space, a letter, less 96.
  space_letter :
      decrypt_byte s (encrypt_byte s 32) ≡ 32
      → (96 + pos_part s ≡ coded + neg_part s)
        × (64 < coded)
        × (coded < 123)
        × ((coded < 91) ⊎ (96 < coded))
  unfolding encrypt_byte decrypt_byte
  space_letter h =
      let p = sub32 (pos coded) s in
      ground (
        arith,
        to_char-lt (add32 (pos 96) s),
        to_char-add32 (pos 96) s,
        to_char-sub32 (pos coded) s,
        to_char-sub32 (pos 91) s,
        to_char-add32 p (pos 58),
        to_char-sub32 p (pos 5),
        sub32-eq_pos coded 96 s,
        to_char-lt s,
        to_char-pos 96,
        to_char-pos 91,
        to_char-pos 58,
        to_char-pos 5,
        to_char-pos coded,
      )

-- A shift below zero takes the letter A to a byte that is neither a letter nor the space.
encrypt_A : (k : ℕ) → 5 ≤ k → k < 32 → encrypt_byte (negsuc k) 65 ≡ 64 - k
unfolding encrypt_byte add32 sub32 to_char
encrypt_A k lo hi = ground arith

letter_lost : (k : ℕ) → 5 ≤ k → k < 32 → decrypt_byte (negsuc k) (encrypt_byte (negsuc k) 65) ≢ 65
unfolding decrypt_byte
letter_lost k lo hi h = ground (arith, encrypt_A k lo hi)

shift_range :
    (s : ℤ)
    → IsInt s
    → decrypt_byte s (encrypt_byte s 32) ≡ 32
    → decrypt_byte s (encrypt_byte s 65) ≡ 65
    → (k : ℕ) × (s ≡ pos k) × (1 ≤ k) × (k ≤ 26)
shift_range (pos k) i space letter = (
  k,
  refl,
  ground (arith, space_letter (pos k) i space),
  ground (arith, space_letter (pos k) i space),
)
shift_range (negsuc k) i space letter = absurd (
    letter_lost k (ground (arith, space_letter (negsuc k) i space))
      (ground (arith, space_letter (negsuc k) i space)) letter)

-- For every `int` value of translate_shift: decrypting an encrypted byte gives the byte back, for
-- all bytes, exactly when the shift is one of 1, ..., 26.
pub encrypt-decrypt : (s : ℤ) → IsInt s → Restores s ↔ ((k : ℕ) × (s ≡ pos k) × (1 ≤ k) × (k ≤ 26))
encrypt-decrypt s i = (
  λ all. shift_range s i (all 32 (omega arith)) (all 65 (omega arith)),
  λ (k, e, lo, hi). rw e (range-Restores k lo hi),
)
