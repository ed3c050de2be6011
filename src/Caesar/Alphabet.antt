-- ===== src/Caesar/Alphabet.antt =====
-- The specification of the cipher of Praktikum_4/caesar.c: an alphabet of 53 characters in the
-- order space, a..z, A..Z, which `encrypt` rotates forwards and `decrypt` backwards.
use ws2425_bs_praktikum.Base.{
  ℕ, ◌+◌, ◌-◌, ◌%◌, ◌≤◌, ◌<◌, ◌≡◌, Bool, ◌&&◌, ◌||◌, arith, leb, ◌==◌, if◌then◌else◌,
}
use ws2425_bs_praktikum.Base.Int.{pos, add32-pos, sub32-pos, to_char-pos}
use ws2425_bs_praktikum.Caesar.Cipher.{encrypt_byte, decrypt_byte}

abbrev pub is_letter : ℕ → Bool
is_letter c = (c == 32) || (leb 97 c && leb c 122) || (leb 65 c && leb c 90)

-- The place of a character in the alphabet.
abbrev pub place : ℕ → ℕ
place c = if c == 32 then 0 else if leb 97 c then c - 96 else c - 38

abbrev pub letter_at : ℕ → ℕ
letter_at p = if p == 0 then 32 else if leb p 26 then p + 96 else p + 38

-- The character `k` places further on, cyclically; what is not in the alphabet stays.
abbrev pub rotate : ℕ → ℕ → ℕ
rotate k c = if is_letter c then letter_at ((place c + k) % 53) else c

pub encrypt_byte-rotate : (k c : ℕ) → 1 ≤ k → k ≤ 26 → c < 256 → encrypt_byte (pos k) c ≡ rotate k c
unfolding encrypt_byte
encrypt_byte-rotate k c lo hi byte = ground (
  arith,
  add32-pos 96 k,
  add32-pos c k,
  add32-pos (c + k) 5,
  sub32-pos (c + k) 58,
  to_char-pos (96 + k),
  to_char-pos (c + k),
  to_char-pos (c + k + 5),
  to_char-pos (c + k - 58),
)

pub decrypt_byte-rotate :
    (k c : ℕ) → 1 ≤ k → k ≤ 26 → c < 256 → decrypt_byte (pos k) c ≡ rotate (53 - k) c
unfolding decrypt_byte
decrypt_byte-rotate k c lo hi byte = ground (
  arith,
  sub32-pos 91 k,
  sub32-pos c k,
  add32-pos (c - k) 58,
  sub32-pos (c - k) 5,
  to_char-pos (91 - k),
  to_char-pos (c - k),
  to_char-pos (c - k + 58),
  to_char-pos (c - k - 5),
)

pub rotate-rotate : (k c : ℕ) → k ≤ 53 → rotate (53 - k) (rotate k c) ≡ c
rotate-rotate k c hi = ground arith

pub rotate_byte : (k c : ℕ) → c < 256 → rotate k c < 256
rotate_byte k c hi = ground arith

-- With a shift of 1, ..., 26 a round of encrypt takes a byte to the character so many places
-- further on in the alphabet, cyclically, a round of decrypt to the one so many places back, and
-- both leave a byte outside the alphabet alone.
pub bytes-rotate :
    (k c : ℕ)
    → 1 ≤ k
    → k ≤ 26
    → c < 256
    → (encrypt_byte (pos k) c ≡ rotate k c) × (decrypt_byte (pos k) c ≡ rotate (53 - k) c)
bytes-rotate k c lo hi byte =
    (encrypt_byte-rotate k c lo hi byte, decrypt_byte-rotate k c lo hi byte)
