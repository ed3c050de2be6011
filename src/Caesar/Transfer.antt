-- ===== src/Caesar/Transfer.antt =====
-- What a process gets from the devices of Praktikum_4/caesar.c: a text written and read back.
use native.Mathlib.Nat.{le_refl}
use ws2425_bs_praktikum.Base.{
  ℕ, zero, suc, ◌-◌, ◌≢◌, ◌≤◌, ◌<◌, ◌≡◌, ◌↔◌, ◌∙◌, refl, ap, ◌⊎◌, true, Option, none, some, List,
  [], ◌∷◌, ◌++◌, map, arith, leb, ◌==◌, if◌then◌else◌, length, take, drop, length-map,
  length-append,
}
use ws2425_bs_praktikum.Base.Int.{ℤ, pos}
use ws2425_bs_praktikum.Caesar.Kernel.{Kernel, Laws}
use ws2425_bs_praktikum.Caesar.Cipher.{encrypt_byte, decrypt_byte, encrypt, decrypt}
use ws2425_bs_praktikum.Caesar.Roundtrip.{encrypt-decrypt}
use ws2425_bs_praktikum.Caesar.Buffer.{Bytes, encrypt-map, decrypt-map, map-Restores}
use ws2425_bs_praktikum.Caesar.Device.{
  buffer_size, m_encrypt, m_decrypt, null, live, ret, oops, Device, dev_write, dev_read, receive,
  send, buffer_of, e_fault,
}
use ws2425_bs_praktikum.Caesar.Sessions.{System, Reach, files}
use ws2425_bs_praktikum.Caesar.Exclusion.{Reach-Inv}

take-append : (xs ys : List ℕ) → take (length xs) (xs ++ ys) ≡ xs
take-append [] ys = refl
take-append (x ∷ xs) ys = ap (◌∷◌ x) (take-append xs ys)

drop-append : (xs ys : List ℕ) → drop (length xs) (xs ++ ys) ≡ ys
drop-append [] ys = refl
drop-append (x ∷ xs) ys = drop-append xs ys

pub fits_if : {A : Type 0} {a : A} (b : A) {m n : ℕ} → m ≤ n → (if leb m n then a else b) ≡ a
fits_if b h = ground arith

module _ (k : Kernel) (laws : Laws k) where
  module _ (bytes text : List ℕ) (u : k.UserPtr) (text_at : k.readable u (length text) ≡ some text)
      (full : length bytes ≡ buffer_size) (fits : length text ≤ buffer_size) where
    pub receive-map :
        (f : ℕ → ℕ) (translate : List ℕ → ℕ → Option (List ℕ))
        → ((buffer : List ℕ)
            → length text ≤ length buffer
            → translate buffer (length text)
              ≡ some (map f (take (length text) buffer) ++ drop (length text) buffer))
        → receive k translate (live bytes) u (length text)
          ≡ ret (pos (length text)) (live (map f text ++ drop (length text) bytes))
    unfolding receive
    receive-map f translate lem =
        let room : length text ≤ length bytes = omega arith in
        let long : length text ≤ length (text ++ drop (length text) bytes) =
          omega (arith, length-append text (drop (length text) bytes)) in
        let step : translate (text ++ drop (length text) bytes) (length text)
            ≡ some (map f text ++ drop (length text) bytes) =
          rw (
            lem (text ++ drop (length text) bytes) long,
            take-append text (drop (length text) bytes),
            drop-append text (drop (length text) bytes),
          ) in
        ground (arith, laws.from_readable bytes text u (length text) text_at room, step)

  pub send-map :
      (f : ℕ → ℕ) (text rest : List ℕ) (v : k.UserPtr)
      → k.is_writable v (length text) ≡ true
      → send k (live (map f text ++ rest)) v (length text) ≡ ret (pos 0) (map f text)
  unfolding send
  send-map f text rest v w =
      let e = length-map text f in
      let w' : k.is_writable v (length (map f text)) ≡ true = rw e w in
      let sent : k.copy_to_user v (map f text ++ rest) (length text) ≡ (0, map f text) =
        rw (← e) (laws.to_writable v (map f text) rest w') in
      let read = laws.read_writable v (length text) w in
      ground (arith, sent, e, read, length-append (map f text) rest)

  -- The byte function of a device.
  abbrev pub code_of : ℤ → (minor_num : ℕ) → ℕ → ℕ
  code_of shift minor_num c =
      if minor_num == m_encrypt then encrypt_byte shift c else decrypt_byte shift c

  -- With a kernel that keeps the laws: a text that fits the buffer, written from readable memory to
  -- one of the two devices with its buffer allocated, and read back to writable memory: the write
  -- returns its length, and the read delivers each byte encrypted (minor 0) or decrypted (minor 1).
  pub write-read :
      (shift : ℤ) (minor : ℕ) (bytes text : List ℕ) (u v : k.UserPtr) (d : Device k)
      → minor ≤ 1
      → k.readable u (length text) ≡ some text
      → k.is_writable v (length text) ≡ true
      → length bytes ≡ buffer_size
      → length text ≤ buffer_size
      → buffer_of k minor d ≡ live bytes
      → (t : Device k) × (dev_write k shift minor u (length text) d ≡ ret (pos (length text)) t)
        × (dev_read k minor v (length text) t ≡ ret (pos 0) (map (code_of shift minor) text))
  unfolding dev_write dev_read
  write-read shift zero bytes text u v d h at w full fits e = (
    record d { enc_buf = live (map (encrypt_byte shift) text ++ drop (length text) bytes) },
    ground (
      arith,
      receive-map bytes text u at full fits (encrypt_byte shift) (encrypt shift)
          (λ b room. encrypt-map shift b (length text) (omega arith) ∙ fits_if none room),
    ),
    send-map (encrypt_byte shift) text (drop (length text) bytes) v w,
  )
  write-read shift (suc zero) bytes text u v d h at w full fits e = (
    record d { dec_buf = live (map (decrypt_byte shift) text ++ drop (length text) bytes) },
    ground (
      arith,
      receive-map bytes text u at full fits (decrypt_byte shift) (decrypt shift)
          (λ b room. decrypt-map shift b (length text) (omega arith) ∙ fits_if none room),
    ),
    send-map (decrypt_byte shift) text (drop (length text) bytes) v w,
  )
  write-read shift (suc (suc minor)) bytes text u v d h at w full fits e = absurd (omega arith)

  -- With a kernel that keeps the laws and a shift of 1, ..., 26: the encrypted bytes of a text of
  -- at most 40 bytes, written from readable memory to the device decrypt with its buffer allocated,
  -- are read back there, to writable memory, as the text.
  pub write-read_both :
      (n : ℕ) (bytes text : List ℕ) (u v : k.UserPtr) (d : Device k)
      → 1 ≤ n
      → n ≤ 26
      → k.readable u (length text) ≡ some (map (code_of (pos n) m_encrypt) text)
      → Bytes text
      → k.is_writable v (length text) ≡ true
      → length bytes ≡ buffer_size
      → length text ≤ buffer_size
      → d.dec_buf ≡ live bytes
      → (t : Device k) × (dev_write k (pos n) m_decrypt u (length text) d
          ≡ ret (pos (length text)) t)
        × (dev_read k m_decrypt v (length text) t ≡ ret (pos 0) text)
  write-read_both n bytes text u v d lo hi at b w full fits e =
      let coded = map (encrypt_byte (pos n)) text in
      let same = length-map text (encrypt_byte (pos n)) in
      let (t, wrote, got) =
        write-read (pos n) 1 bytes coded u v d (le_refl 1) (rw same at) (rw same w) full
          (rw same fits) e in
      let restores = (encrypt-decrypt (pos n) (omega arith)).1 (n, refl, lo, hi) in
      (
        t,
        rw same at wrote,
        rw same at got ∙ ap (ret (pos 0)) (map-Restores (pos n) text restores b),
      )

  -- dev_write of which copy_from_user leaves a part uncopied, to a device with a buffer of full
  -- size, returns -EFAULT: the buffer has what was copied, untranslated, and nothing else changes.
  write-not_copied :
      (shift : ℤ) (minor : ℕ) (u : k.UserPtr) (len : ℕ) (d : Device k) (bytes : List ℕ)
      → minor ≤ 1
      → len ≤ buffer_size
      → length bytes ≡ buffer_size
      → buffer_of k minor d ≡ live bytes
      → (k.copy_from_user bytes u len).0 ≢ 0
      → (t : Device k) × (dev_write k shift minor u len d ≡ ret e_fault t)
        × (buffer_of k minor t ≡ live (k.copy_from_user bytes u len).1)
        × (buffer_of k (1 - minor) t ≡ buffer_of k (1 - minor) d)
        × (t.encrypt_mutex ≡ d.encrypt_mutex)
        × (t.decrypt_mutex ≡ d.decrypt_mutex)
  unfolding dev_write receive
  write-not_copied shift zero u len d bytes h l size b missing = (
    record d { enc_buf = live (k.copy_from_user bytes u len).1 },
    ground arith,
    refl,
    refl,
    refl,
    refl,
  )
  write-not_copied shift (suc zero) u len d bytes h l size b missing = (
    record d { dec_buf = live (k.copy_from_user bytes u len).1 },
    ground arith,
    refl,
    refl,
    refl,
    refl,
  )
  write-not_copied shift (suc (suc minor)) u len d bytes h l size b missing = absurd (omega arith)

  -- dev_read checks no length: with a kernel that keeps the laws and the device open, in every
  -- state that opens, writes and releases lead to, a read into writable memory reads through NULL
  -- or behind the end of the buffer exactly if kmalloc had failed and at least one byte is asked
  -- for, or more than 40 bytes are.
  pub read-oops :
      {s : System k} (minor : ℕ) (v : k.UserPtr) (len : ℕ)
      → Reach k s
      → 0 < files k s minor
      → k.is_writable v len ≡ true
      → (dev_read k minor v len s.device ≡ oops)
        ↔ (((buffer_of k minor s.device ≡ null) × (0 < len)) ⊎ (buffer_size < len))
  unfolding dev_read send
  read-oops {s} minor v len r o w =
      let i = Reach-Inv k laws r in
      let all = laws.read_writable v len w in (λ e. ground (arith, all), λ e. ground (arith, all))
