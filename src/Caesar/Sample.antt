-- ===== src/Caesar/Sample.antt =====
-- A kernel with user space as lists, and system calls on it, which keep the laws that the theorems
-- about Praktikum_4 suppose.
use ws2425_bs_praktikum.Base.{
  ℕ, ◌%◌, ◌≤◌, ◌≡◌, refl, ap, Bool, true, false, Option, none, some, List, [], ◌∷◌, ◌++◌, map,
  arith, ◌==◌, if◌then◌else◌, length, take, drop, length-map, length-append, length-drop,
}
use ws2425_bs_praktikum.Base.Int.{ℤ, pos, eqb_ℤ}
use ws2425_bs_praktikum.Caesar.Kernel.{Kernel, Laws}
use ws2425_bs_praktikum.Caesar.Buffer.{Bytes}
use ws2425_bs_praktikum.Caesar.Device.{
  e_fault, ret, oops, Device, Outcome, dev_open, dev_read, dev_write, dev_release,
}
use ws2425_bs_praktikum.Caesar.Syscalls.{Syscalls, Passes}

abbrev pub clip : ℕ → ℕ
clip c = c % 256

-- A user pointer: NULL, or memory with its bytes.
abbrev pub UserMemory : Type 0
UserMemory = Option (List ℕ)

abbrev pub user_bytes : UserMemory → ℕ → Option (List ℕ)
user_bytes none len = none
user_bytes (some bs) len = if len == length bs then some (map clip bs) else none

abbrev pub from_user : List ℕ → UserMemory → ℕ → ℕ × List ℕ
from_user to none len = (len, to)
from_user to (some bs) len = if len == length bs then (0, map clip bs ++ drop len to) else (len, to)

abbrev pub to_user : UserMemory → List ℕ → ℕ → ℕ × List ℕ
to_user none bs len = (len, [])
to_user (some _) bs len = (0, take len bs)

abbrev pub user_writable : UserMemory → ℕ → Bool
user_writable none len = false
user_writable (some _) len = true

abbrev pub test_kernel : Kernel
test_kernel = record {
  Mutex = Bool;
  is_locked = λ m. m;
  mutex_trylock = λ m. if m then (0, true) else (1, true);
  mutex_unlock = λ _. false;
  UserPtr = UserMemory;
  readable = user_bytes;
  is_writable = user_writable;
  bytes_read = λ p len. if user_writable p len then len else 0;
  copy_from_user = from_user;
  copy_to_user = to_user;
}

clip-Bytes : (bs : List ℕ) → Bytes (map clip bs)
clip-Bytes [] = tt
clip-Bytes (b ∷ bs) = (omega arith, clip-Bytes bs)

take-all : (xs ys : List ℕ) → take (length xs) (xs ++ ys) ≡ xs
take-all [] ys = refl
take-all (x ∷ xs) ys = ap (◌∷◌ x) (take-all xs ys)

user_bytes_lem :
    (p : UserMemory) (len : ℕ) (bs : List ℕ)
    → user_bytes p len ≡ some bs
    → (length bs ≡ len) × Bytes bs
user_bytes_lem none len bs e = absurd (cc)
user_bytes_lem (some xs) len bs e =
    (ground (arith, length-map xs clip), ground (arith, clip-Bytes xs))

from_user-bytes :
    (to bs : List ℕ) (p : UserMemory) (len : ℕ)
    → user_bytes p len ≡ some bs
    → from_user to p len ≡ (0, bs ++ drop len to)
from_user-bytes to bs none len e = absurd (cc)
from_user-bytes to bs (some xs) len e = ground arith

from_user-length :
    (to : List ℕ) (p : UserMemory) (len : ℕ)
    → len ≤ length to
    → length (from_user to p len).1 ≡ length to
from_user-length to none len h = refl
from_user-length to (some xs) len h =
    ground
      (arith, length-append (map clip xs) (drop len to), length-drop len to, length-map xs clip)

to_user-writable :
    (p : UserMemory) (bs rest : List ℕ)
    → user_writable p (length bs) ≡ true
    → to_user p (bs ++ rest) (length bs) ≡ (0, bs)
to_user-writable none bs rest h = absurd (cc)
to_user-writable (some xs) bs rest h = ap (λ (ys : List ℕ). (0, ys)) (take-all bs rest)

pub test_laws : Laws test_kernel
test_laws = record {
  trylock_free = λ m e. ground arith;
  trylock_busy = λ m e. ground arith;
  unlock_free = λ m. refl;
  readable_bytes = user_bytes_lem;
  from_readable = λ to bs p len e h. from_user-bytes to bs p len e;
  from_length = from_user-length;
  read_writable = λ p len e. ground arith;
  to_writable = to_user-writable;
}

-- System calls with the minor number for the descriptor of a file.
abbrev release_done : Outcome (Device test_kernel) → Outcome (Device test_kernel)
release_done (ret code t) = ret (pos 0) t
release_done oops = oops

abbrev pub opened_file : (minor : ℕ) → ℤ × Device test_kernel → Option ℕ × Device test_kernel
opened_file minor (code, t) = (if eqb_ℤ code (pos 0) then some minor else none, t)

abbrev write_file :
    ℤ → Option ℕ → UserMemory → ℕ → Device test_kernel → Outcome (Device test_kernel)
write_file shift none p len d = ret e_fault d
write_file shift (some minor) p len d = dev_write test_kernel shift minor p len d

abbrev read_file : Option ℕ → UserMemory → ℕ → Device test_kernel → Outcome (List ℕ)
read_file none p len d = ret e_fault []
read_file (some minor) p len d = dev_read test_kernel minor p len d

abbrev close_file : Option ℕ → Device test_kernel → Outcome (Device test_kernel)
close_file none d = ret e_fault d
close_file (some minor) d = release_done (dev_release test_kernel minor d)

abbrev pub test_calls : Syscalls test_kernel
test_calls = record {
  Fd = Option ℕ;
  device_of = λ fd. fd;
  open_node = λ minor memory d. opened_file minor (dev_open test_kernel minor memory d);
  write = write_file;
  read = read_file;
  close = close_file;
}

pub test_calls_lem : Passes test_kernel test_calls
test_calls_lem = record {
  open_granted = λ minor memory d t e. (rw e refl, rw e refl);
  open_refused = λ minor memory d t code e ne. (ground arith, rw e refl);
  write_passes = λ shift fd minor p len n d t e h. rw (e, h) refl;
  read_passes = λ fd minor p len n d bytes e h. rw (e, h) refl;
  close_passes = λ fd minor d t code e h. rw (e, h) refl;
}
