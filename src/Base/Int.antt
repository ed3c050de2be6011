-- ===== src/Base/Int.antt =====
-- C integers: signed values over the native numbers, `int` arithmetic that wraps at 32 bits (the
-- kernel is built with -fno-strict-overflow), and the conversion to the kernel's unsigned `char`.
use Prim.Native.Nat.{ℕ, suc, ◌+◌, ◌-◌, ◌%◌, ◌^◌, ◌≤◌, ◌<◌}
use mathlib.Core.Path.{◌≡◌, refl}
use mathlib.Core.Bool.{Bool, true}
use native.Mathlib.Omega.{arith}
use ws2425_bs_praktikum.Base.Tests.{ltb, leb, ◌==◌, if◌then◌else◌}

-- `negsuc n` is -(n + 1).
pub data ℤ : Type 0 where
  pos : ℕ → ℤ
  negsuc : ℕ → ℤ

abbrev pub pos_part : ℤ → ℕ
pos_part (pos n) = n
pos_part (negsuc n) = 0

abbrev pub neg_part : ℤ → ℕ
neg_part (pos n) = 0
neg_part (negsuc n) = suc n

-- a - b, as an integer.
abbrev pub sub_ℕ : ℕ → ℕ → ℤ
sub_ℕ a b = if leb b a then pos (a - b) else negsuc (b - a - 1)

infixl 65 ◌+ℤ◌ ◌-ℤ◌
infix 50 ◌≤ℤ◌
unfoldable pub ◌+ℤ◌ : ℤ → ℤ → ℤ
a +ℤ b = sub_ℕ (pos_part a + pos_part b) (neg_part a + neg_part b)

unfoldable pub ◌-ℤ◌ : ℤ → ℤ → ℤ
a -ℤ b = sub_ℕ (pos_part a + neg_part b) (neg_part a + pos_part b)

abbrev pub ◌≤ℤ◌ : ℤ → ℤ → Type 0
a ≤ℤ b = pos_part a + neg_part b ≤ pos_part b + neg_part a

abbrev pub ltb_ℤ : ℤ → ℤ → Bool
ltb_ℤ a b = ltb (pos_part a + neg_part b) (pos_part b + neg_part a)

abbrev pub eqb_ℤ : ℤ → ℤ → Bool
eqb_ℤ a b = (pos_part a + neg_part b) == (pos_part b + neg_part a)

-- The representative of an integer modulo 2^32 that an `int` holds.
unfoldable pub wrap32 : ℤ → ℤ
wrap32 (pos n) = let r = n % 2 ^ 32 in if ltb r (2 ^ 31) then pos r else negsuc (2 ^ 32 - 1 - r)
wrap32 (negsuc n) = let r = n % 2 ^ 32 in if ltb r (2 ^ 31) then negsuc r else pos (2 ^ 32 - 1 - r)

-- `a + b` and `a - b` on `int`.
unfoldable pub add32 : ℤ → ℤ → ℤ
unfolding wrap32 ◌+ℤ◌
add32 a b = wrap32 (a +ℤ b)

unfoldable pub sub32 : ℤ → ℤ → ℤ
unfolding wrap32 ◌-ℤ◌
sub32 a b = wrap32 (a -ℤ b)

-- The conversion of an `int` to `unsigned char`.
unfoldable pub to_char : ℤ → ℕ
to_char (pos n) = n % 256
to_char (negsuc n) = 255 - n % 256

pub add32-pos : (a b : ℕ) → a + b < 2 ^ 31 → add32 (pos a) (pos b) ≡ pos (a + b)
unfolding add32
add32-pos a b h = ground arith

pub sub32-pos : (a b : ℕ) → b ≤ a → a < 2 ^ 31 → sub32 (pos a) (pos b) ≡ pos (a - b)
unfolding sub32
sub32-pos a b h k = ground arith

pub to_char-lt : (a : ℤ) → to_char a < 256
unfolding to_char
to_char-lt (pos n) = omega arith
to_char-lt (negsuc n) = omega arith

pub to_char-pos : (n : ℕ) → to_char (pos n) ≡ n % 256
unfolding to_char
to_char-pos n = refl

-- An `int` sum is exact modulo 256, whatever it wrapped to.
pub to_char-wrap32 : (a : ℤ) → to_char (wrap32 a) ≡ to_char a
unfolding to_char wrap32
to_char-wrap32 (pos n) = ground arith
to_char-wrap32 (negsuc n) = ground arith

pub to_char-add32 : (a b : ℤ) → to_char (add32 a b) ≡ (to_char a + to_char b) % 256
unfolding to_char wrap32 add32 ◌+ℤ◌
to_char-add32 a b = rw (to_char-wrap32 (a +ℤ b)) (parts a b)
  where
    parts : (a b : ℤ) → to_char (a +ℤ b) ≡ (to_char a + to_char b) % 256
    parts (pos n) (pos m) = ground arith
    parts (pos n) (negsuc m) = ground arith
    parts (negsuc n) (pos m) = ground arith
    parts (negsuc n) (negsuc m) = ground arith

pub to_char-sub32 : (a b : ℤ) → to_char (sub32 a b) ≡ (to_char a + 256 - to_char b) % 256
unfolding to_char wrap32 sub32 ◌-ℤ◌
to_char-sub32 a b = rw (to_char-wrap32 (a -ℤ b)) (parts a b)
  where
    parts : (a b : ℤ) → to_char (a -ℤ b) ≡ (to_char a + 256 - to_char b) % 256
    parts (pos n) (pos m) = ground arith
    parts (pos n) (negsuc m) = ground arith
    parts (negsuc n) (pos m) = ground arith
    parts (negsuc n) (negsuc m) = ground arith

-- The values of an `int`.
abbrev pub IsInt : ℤ → Type 0
IsInt s = (negsuc 2147483647 ≤ℤ s) × (s ≤ℤ pos 2147483647)

-- A difference below 2^31 with a byte does not wrap.
pub sub32-eq_pos :
    (e d : ℕ) (s : ℤ)
    → IsInt s
    → e < 256
    → d < 256
    → eqb_ℤ (sub32 (pos e) s) (pos d) ≡ true
    → e + neg_part s ≡ d + pos_part s
unfolding sub32
sub32-eq_pos e d (pos k) i he hd h = ground arith
sub32-eq_pos e d (negsuc k) i he hd h = ground arith
