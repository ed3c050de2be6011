-- ===== src/Caesar/Exclusion.antt =====
-- What holds of Praktikum_4/caesar.c in every order of opens, writes and releases: one file for
-- each device, no access outside a buffer but through a NULL of kmalloc.
use ws2425_bs_praktikum.Base.{
  ℕ, zero, suc, true, ◌-◌, ◌≤◌, ◌<◌, ◌≡◌, ◌≢◌, refl, inl, inr, Option, none, some, List, arith,
  length, Option-cases,
}
use ws2425_bs_praktikum.Base.Int.{ℤ, pos}
use ws2425_bs_praktikum.Caesar.Kernel.{Kernel, Laws}
use ws2425_bs_praktikum.Caesar.Cipher.{encrypt, decrypt}
use ws2425_bs_praktikum.Caesar.Buffer.{encrypt-map, decrypt-map, length-encrypt, length-decrypt}
use ws2425_bs_praktikum.Caesar.Device.{
  buffer_size, e_busy, CharPtr, null, live, freed, kmalloc, ret, oops, Device, dev_open, dev_write,
  dev_release, receive, buffer_of, mutex_of,
}
use ws2425_bs_praktikum.Caesar.Sessions.{
  System, files, Step, opens, writes, releases, Reach, loaded, later, IsBuffer, Inv, IsLoaded-Inv,
  opens-Inv, releases-Inv,
}

-- A loop over a buffer, as far as its size goes.
abbrev KeepsSize : (List ℕ → ℕ → Option (List ℕ)) → Type 0
KeepsSize f =
    (bs : List ℕ) (len : ℕ) (done : List ℕ) → f bs len ≡ some done → length done ≡ length bs

-- The pointer after a kfree of it.
abbrev freed_of : CharPtr → CharPtr
freed_of null = null
freed_of _ = freed

module _ (k : Kernel) (laws : Laws k) where
  receive-IsBuffer :
      (f : List ℕ → ℕ → Option (List ℕ))
      → KeepsSize f
      → (p q : CharPtr) (u : k.UserPtr) (len : ℕ) {code : ℤ} → IsBuffer p
      → receive k f p u len ≡ ret code q
      → IsBuffer q
  unfolding receive
  receive-IsBuffer f keeps null q u len b e = ground arith
  receive-IsBuffer f keeps freed q u len b e = absurd b
  receive-IsBuffer f keeps (live bytes) q u len b e =
      let r = (k.copy_from_user bytes u len).1 in
      elim (Option-cases (f r len)) [
        | inl out ↦ ground (arith, laws.from_length bytes u len)
        | inr (done, got) ↦ ground (arith, laws.from_length bytes u len, keeps r len done got)
      ]

  writes-Inv :
      {s : System k} (shift : ℤ) (minor : ℕ) (p : k.UserPtr) (len : ℕ) {code : ℤ} {d : Device k}
      → Inv k s
      → 0 < files k s minor
      → dev_write k shift minor p len s.device ≡ ret code d
      → Inv k (record s { device = d })
  unfolding dev_write
  writes-Inv {s} shift minor p len {code} {d} i open_file e = ground (
    arith,
    receive-IsBuffer (encrypt shift) (λ bs n done. length-encrypt shift bs n) s.device.enc_buf
        d.enc_buf p len {code = code},
    receive-IsBuffer (decrypt shift) (λ bs n done. length-decrypt shift bs n) s.device.dec_buf
        d.dec_buf p len {code = code},
  )

  Step-Inv : {s t : System k} → Step k s t → Inv k s → Inv k t
  Step-Inv (opens minor memory f e) i = opens-Inv k laws minor memory i f e
  Step-Inv (writes shift minor p len o e) i = writes-Inv shift minor p len i o e
  Step-Inv (releases minor o e) i = releases-Inv k laws minor i e

  -- With a kernel that keeps the laws, in every state that opens, writes and releases lead to, in
  -- any order: each device has at most one open file, its mutex is held exactly while it has one,
  -- and then its buffer pointer is NULL or a buffer of full size.
  pub Reach-Inv : {s : System k} → Reach k s → Inv k s
  Reach-Inv (loaded l) = IsLoaded-Inv k l
  Reach-Inv (later r st) = Step-Inv st (Reach-Inv r)

  -- dev_open of a device with no open file, in a state that opens, writes and releases lead to,
  -- with a kernel that keeps the laws, returns 0, takes the device's mutex and gives it the buffer
  -- of kmalloc. The other device stays as it is.
  open-free :
      {s : System k} (minor : ℕ) (memory : Option (List ℕ))
      → Reach k s
      → minor ≤ 1
      → files k s minor ≡ 0
      → (t : Device k) × (dev_open k minor memory s.device ≡ (pos 0, t))
        × (k.is_locked (mutex_of k minor t) ≡ true)
        × (buffer_of k minor t ≡ kmalloc memory)
        × (mutex_of k (1 - minor) t ≡ mutex_of k (1 - minor) s.device)
        × (buffer_of k (1 - minor) t ≡ buffer_of k (1 - minor) s.device)
  unfolding dev_open
  open-free {s} zero memory r h e =
      let i = Reach-Inv r in
      let locks = laws.trylock_free s.device.encrypt_mutex in
      (
        record s.device {
          encrypt_mutex = (k.mutex_trylock s.device.encrypt_mutex).1;
          enc_buf = kmalloc memory;
        },
        ground (arith, locks),
        ground (arith, locks),
        refl,
        refl,
        refl,
      )
  open-free {s} (suc zero) memory r h e =
      let i = Reach-Inv r in
      let locks = laws.trylock_free s.device.decrypt_mutex in
      (
        record s.device {
          decrypt_mutex = (k.mutex_trylock s.device.decrypt_mutex).1;
          dec_buf = kmalloc memory;
        },
        ground (arith, locks),
        ground (arith, locks),
        refl,
        refl,
        refl,
      )
  open-free {s} (suc (suc minor)) memory r h e = absurd (omega arith)

  -- dev_open of a device that has an open file, in a state that opens, writes and releases lead to,
  -- with a kernel that keeps the laws, returns -EBUSY and changes nothing.
  open-busy :
      {s : System k} (minor : ℕ) (memory : Option (List ℕ))
      → Reach k s
      → 0 < files k s minor
      → dev_open k minor memory s.device ≡ (e_busy, s.device)
  unfolding dev_open
  open-busy {s} minor memory r busy =
      let i = Reach-Inv r in
      ground
        (arith, laws.trylock_busy s.device.encrypt_mutex, laws.trylock_busy s.device.decrypt_mutex)

  receive-oops :
      (f : List ℕ → ℕ → Option (List ℕ)) (p : CharPtr) (u : k.UserPtr) (len : ℕ)
      → ((bs : List ℕ) → len ≤ buffer_size → len ≤ length bs → f bs len ≢ none)
      → IsBuffer p
      → len ≤ buffer_size
      → receive k f p u len ≡ oops
      → p ≡ null
  unfolding receive
  receive-oops f null u len total b h e = refl
  receive-oops f freed u len total b h e = absurd b
  receive-oops f (live bytes) u len total b h e =
      let r = (k.copy_from_user bytes u len).1 in
      ground (arith, laws.from_length bytes u len, total r)

  encrypt-total :
      (shift : ℤ) (bs : List ℕ) (len : ℕ)
      → len ≤ buffer_size
      → len ≤ length bs
      → encrypt shift bs len ≢ none
  encrypt-total shift bs len small h e = ground (arith, encrypt-map shift bs len)

  decrypt-total :
      (shift : ℤ) (bs : List ℕ) (len : ℕ)
      → len ≤ buffer_size
      → len ≤ length bs
      → decrypt shift bs len ≢ none
  decrypt-total shift bs len small h e = ground (arith, decrypt-map shift bs len)

  -- In a state that opens, writes and releases lead to, with a kernel that keeps the laws, the
  -- device open: if dev_write with any length, shift and user pointer touches a byte outside every
  -- buffer, then kmalloc had failed and the device's buffer pointer is NULL.
  pub write-oops :
      {s : System k} (shift : ℤ) (minor : ℕ) (u : k.UserPtr) (len : ℕ)
      → Reach k s
      → 0 < files k s minor
      → dev_write k shift minor u len s.device ≡ oops
      → buffer_of k minor s.device ≡ null
  unfolding dev_write
  write-oops {s} shift minor u len r o e =
      let i = Reach-Inv r in
      ground (
        arith,
        receive-oops (encrypt shift) s.device.enc_buf u len (λ bs. encrypt-total shift bs len),
        receive-oops (decrypt shift) s.device.dec_buf u len (λ bs. decrypt-total shift bs len),
      )

  -- In a state that opens, writes and releases lead to, with a kernel that keeps the laws, one of
  -- the two devices open: dev_release of it returns 0 without a double kfree, and whoever opens the
  -- device next gets it, with a buffer of its own.
  pub release-open :
      {s : System k} (minor : ℕ) (memory : Option (List ℕ))
      → Reach k s
      → minor ≤ 1
      → 0 < files k s minor
      → (t : Device k) × (dev_release k minor s.device ≡ ret (pos 0) t)
        × ((dev_open k minor memory t).0 ≡ pos 0)
        × (buffer_of k minor (dev_open k minor memory t).1 ≡ kmalloc memory)
  unfolding dev_release dev_open
  release-open {s} zero memory r h o =
      let i = Reach-Inv r in
      let m = k.mutex_unlock s.device.encrypt_mutex in
      (
        record s.device { encrypt_mutex = m; enc_buf = freed_of s.device.enc_buf },
        ground arith,
        ground (arith, laws.unlock_free s.device.encrypt_mutex, laws.trylock_free m),
        ground (arith, laws.unlock_free s.device.encrypt_mutex, laws.trylock_free m),
      )
  release-open {s} (suc zero) memory r h o =
      let i = Reach-Inv r in
      let m = k.mutex_unlock s.device.decrypt_mutex in
      (
        record s.device { decrypt_mutex = m; dec_buf = freed_of s.device.dec_buf },
        ground arith,
        ground (arith, laws.unlock_free s.device.decrypt_mutex, laws.trylock_free m),
        ground (arith, laws.unlock_free s.device.decrypt_mutex, laws.trylock_free m),
      )
  release-open (suc (suc minor)) memory r h o = absurd (omega arith)
