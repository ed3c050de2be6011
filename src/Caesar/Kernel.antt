-- ===== src/Caesar/Kernel.antt =====
-- What Praktikum_4/caesar.c relies on of the Linux kernel: mutexes, kmalloc and the copies from and
-- to user space. The kernel is not part of the repository, so it is a parameter, with the
-- documented behaviour as laws.
use ws2425_bs_praktikum.Base.{
  ℕ, ◌≤◌, ◌≡◌, Bool, true, false, Option, some, List, ◌++◌, length, drop,
}
use ws2425_bs_praktikum.Caesar.Buffer.{Bytes}

pub record Kernel : Type 1 where
  pub Mutex : Type 0
  pub is_locked : Mutex → Bool
  -- 1 and the lock held, or 0 if there is contention
  pub mutex_trylock : Mutex → ℕ × Mutex
  pub mutex_unlock : Mutex → Mutex
  pub UserPtr : Type 0
  -- The bytes that user space has for reading at a pointer, so many of them.
  pub readable : UserPtr → ℕ → Option (List ℕ)
  pub is_writable : UserPtr → ℕ → Bool
  -- How many bytes of its source copy_to_user looks at: none of them where it refuses the pointer.
  pub bytes_read : (to : UserPtr) (len : ℕ) → ℕ
  -- Each returns how many bytes it could not copy, and what the destination then holds.
  pub copy_from_user : (to : List ℕ) (from : UserPtr) (len : ℕ) → ℕ × List ℕ
  pub copy_to_user : (to : UserPtr) (from : List ℕ) (len : ℕ) → ℕ × List ℕ

pub record Laws (k : Kernel) : Type 0 where
  pub trylock_free :
      (m : k.Mutex)
      → k.is_locked m ≡ false
      → ((k.mutex_trylock m).0 ≡ 1) × (k.is_locked (k.mutex_trylock m).1 ≡ true)
  pub trylock_busy : (m : k.Mutex) → k.is_locked m ≡ true → k.mutex_trylock m ≡ (0, m)
  pub unlock_free : (m : k.Mutex) → k.is_locked (k.mutex_unlock m) ≡ false
  pub readable_bytes :
      (p : k.UserPtr) (len : ℕ) (bs : List ℕ)
      → k.readable p len ≡ some bs
      → (length bs ≡ len) × Bytes bs
  pub from_readable :
      (to bs : List ℕ) (p : k.UserPtr) (len : ℕ)
      → k.readable p len ≡ some bs
      → len ≤ length to
      → k.copy_from_user to p len ≡ (0, bs ++ drop len to)
  pub from_length :
      (to : List ℕ) (p : k.UserPtr) (len : ℕ)
      → len ≤ length to
      → length (k.copy_from_user to p len).1 ≡ length to
  pub read_writable :
      (p : k.UserPtr) (len : ℕ) → k.is_writable p len ≡ true → k.bytes_read p len ≡ len
  pub to_writable :
      (p : k.UserPtr) (bs rest : List ℕ)
      → k.is_writable p (length bs) ≡ true
      → k.copy_to_user p (bs ++ rest) (length bs) ≡ (0, bs)
