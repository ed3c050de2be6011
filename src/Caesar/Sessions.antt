-- ===== src/Caesar/Sessions.antt =====
-- The devices of Praktikum_4/caesar.c in use: opened, written and released in any order by any
-- processes. A file is what a successful open leaves behind until its release.
use ws2425_bs_praktikum.Base.{
  ℕ, suc, ◌-◌, ◌≤◌, ◌<◌, ◌≡◌, ◌⊎◌, false, ◌&&◌, Option, none, some, List, arith, ltb, ◌==◌,
  if◌then◌else◌, length,
}
use ws2425_bs_praktikum.Base.Int.{ℤ, pos, eqb_ℤ}
use ws2425_bs_praktikum.Caesar.Kernel.{Kernel, Laws}
use ws2425_bs_praktikum.Caesar.Device.{
  buffer_size, m_encrypt, m_decrypt, CharPtr, null, live, freed, ret, Device, dev_open, dev_write,
  dev_release,
}

-- kmalloc gives nothing or a buffer of the size asked for.
abbrev pub Fits : Option (List ℕ) → Type 0
Fits none = Unit
Fits (some bytes) = length bytes ≡ buffer_size

pub record System (k : Kernel) : Type 0 where
  pub device : Device k
  pub enc_files : ℕ
  pub dec_files : ℕ

abbrev pub bump : ℕ → ℕ → ℤ → ℕ → ℕ
bump minor which code n = if minor == which && eqb_ℤ code (pos 0) then suc n else n

abbrev pub drop_file : ℕ → ℕ → ℕ → ℕ
drop_file minor which n = if minor == which then n - 1 else n

module _ (k : Kernel) where
  -- How many files are open on a device.
  abbrev pub files : System k → ℕ → ℕ
  files s minor =
      if minor == m_encrypt then s.enc_files else if minor == m_decrypt then s.dec_files else 0

  pub data Step (s : System k) : System k → Type 0 where
    opens :
        (minor : ℕ) (memory : Option (List ℕ)) {code : ℤ} {d : Device k}
        → Fits memory
        → dev_open k minor memory s.device ≡ (code, d)
        → Step s (record {
          device = d;
          enc_files = bump minor m_encrypt code s.enc_files;
          dec_files = bump minor m_decrypt code s.dec_files;
        })
    writes :
        (shift : ℤ) (minor : ℕ) (p : k.UserPtr) (len : ℕ) {code : ℤ} {d : Device k}
        → 0 < files s minor
        → dev_write k shift minor p len s.device ≡ ret code d
        → Step s (record s { device = d })
    releases :
        (minor : ℕ) {code : ℤ} {d : Device k}
        → 0 < files s minor
        → dev_release k minor s.device ≡ ret code d
        → Step s (record {
          device = d;
          enc_files = drop_file minor m_encrypt s.enc_files;
          dec_files = drop_file minor m_decrypt s.dec_files;
        })

  -- After the module was loaded: both mutexes free, no buffer, no file.
  pub record IsLoaded (s : System k) : Type 0 where
    pub enc_free : k.is_locked s.device.encrypt_mutex ≡ false
    pub dec_free : k.is_locked s.device.decrypt_mutex ≡ false
    pub no_enc_file : s.enc_files ≡ 0
    pub no_dec_file : s.dec_files ≡ 0

  pub data Reach : System k → Type 0 where
    loaded : {s : System k} → IsLoaded s → Reach s
    later : {s t : System k} → Reach s → Step s t → Reach t

abbrev pub IsBuffer : CharPtr → Type 0
IsBuffer null = Unit
IsBuffer (live bytes) = length bytes ≡ buffer_size
IsBuffer freed = ⊥

module _ (k : Kernel) where
  -- One device: it has at most one file, its mutex is held exactly while there is one, and then its
  -- buffer is of full size, or NULL where kmalloc failed.
  pub record IsSide (files : ℕ) (m : k.Mutex) (p : CharPtr) : Type 0 where
    pub at_most_one : files ≤ 1
    pub held : k.is_locked m ≡ ltb 0 files
    pub buffer : (files ≡ 0) ⊎ IsBuffer p

  pub record Inv (s : System k) : Type 0 where
    pub enc : IsSide s.enc_files s.device.encrypt_mutex s.device.enc_buf
    pub dec : IsSide s.dec_files s.device.decrypt_mutex s.device.dec_buf

  pub IsLoaded-Inv : {s : System k} → IsLoaded k s → Inv s
  IsLoaded-Inv l = ground arith

module _ (k : Kernel) (laws : Laws k) where
  pub opens-Inv :
      {s : System k} (minor : ℕ) (memory : Option (List ℕ)) {code : ℤ} {d : Device k}
      → Inv k s
      → Fits memory
      → dev_open k minor memory s.device ≡ (code, d)
      → Inv k (record {
        device = d;
        enc_files = bump minor m_encrypt code s.enc_files;
        dec_files = bump minor m_decrypt code s.dec_files;
      })
  unfolding dev_open
  opens-Inv {s} minor memory i f e = ground (
    arith,
    laws.trylock_free s.device.encrypt_mutex,
    laws.trylock_busy s.device.encrypt_mutex,
    laws.trylock_free s.device.decrypt_mutex,
    laws.trylock_busy s.device.decrypt_mutex,
  )

  pub releases-Inv :
      {s : System k} (minor : ℕ) {code : ℤ} {d : Device k}
      → Inv k s
      → dev_release k minor s.device ≡ ret code d
      → Inv k (record {
        device = d;
        enc_files = drop_file minor m_encrypt s.enc_files;
        dec_files = drop_file minor m_decrypt s.dec_files;
      })
  unfolding dev_release
  releases-Inv {s} minor i e =
      ground
        (arith, laws.unlock_free s.device.encrypt_mutex, laws.unlock_free s.device.decrypt_mutex)
