-- ===== src/Caesar/Syscalls.antt =====
-- What a program relies on when it opens, writes, reads and closes the devices of
-- Praktikum_4/caesar.c. The file layer of the kernel and the C library are not part of the
-- repository, so they are a parameter, with the documented behaviour as laws: a call on a file
-- reaches the driver's handler, and an open that the driver refuses gives a descriptor of no file.
use ws2425_bs_praktikum.Base.{ℕ, ◌≡◌, ◌≢◌, Option, none, some, List}
use ws2425_bs_praktikum.Base.Int.{ℤ, pos}
use ws2425_bs_praktikum.Caesar.Kernel.{Kernel}
use ws2425_bs_praktikum.Caesar.Device.{
  Device, Outcome, ret, dev_open, dev_read, dev_write, dev_release,
}

pub record Syscalls (k : Kernel) : Type 1 where
  pub Fd : Type 0
  -- The minor number of the device that a descriptor stands for.
  pub device_of : Fd → Option ℕ
  -- `memory` is what kmalloc gives the driver.
  pub open_node : (minor_num : ℕ) (memory : Option (List ℕ)) → Device k → Fd × Device k
  pub write : (translate_shift : ℤ) → Fd → k.UserPtr → ℕ → Device k → Outcome (Device k)
  pub read : Fd → k.UserPtr → ℕ → Device k → Outcome (List ℕ)
  pub close : Fd → Device k → Outcome (Device k)

pub record Passes (k : Kernel) (c : Syscalls k) : Type 0 where
  pub open_granted :
      (minor : ℕ) (memory : Option (List ℕ)) (d t : Device k)
      → dev_open k minor memory d ≡ (pos 0, t)
      → (c.device_of (c.open_node minor memory d).0 ≡ some minor)
        × ((c.open_node minor memory d).1 ≡ t)
  pub open_refused :
      (minor : ℕ) (memory : Option (List ℕ)) (d t : Device k) (code : ℤ)
      → dev_open k minor memory d ≡ (code, t)
      → code ≢ pos 0
      → (c.device_of (c.open_node minor memory d).0 ≡ none) × ((c.open_node minor memory d).1 ≡ t)
  pub write_passes :
      (shift : ℤ) (fd : c.Fd) (minor : ℕ) (p : k.UserPtr) (len n : ℕ) (d t : Device k)
      → c.device_of fd ≡ some minor
      → dev_write k shift minor p len d ≡ ret (pos n) t
      → c.write shift fd p len d ≡ ret (pos n) t
  pub read_passes :
      (fd : c.Fd) (minor : ℕ) (p : k.UserPtr) (len n : ℕ) (d : Device k) (bytes : List ℕ)
      → c.device_of fd ≡ some minor
      → dev_read k minor p len d ≡ ret (pos n) bytes
      → c.read fd p len d ≡ ret (pos n) bytes
  -- A close succeeds whatever the driver's release returns.
  pub close_passes :
      (fd : c.Fd) (minor : ℕ) (d t : Device k) (code : ℤ)
      → c.device_of fd ≡ some minor
      → dev_release k minor d ≡ ret code t
      → c.close fd d ≡ ret (pos 0) t
