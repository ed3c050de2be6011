-- ===== src/Caesar/Calls.antt =====
-- What the handlers of Praktikum_4/caesar.c answer a program that has a device for itself: its
-- open, a write and a read of 40 bytes, its close.
use ws2425_bs_praktikum.Base.{
  ℕ, ◌≡◌, ◌∙◌, true, false, Option, none, some, List, ◌++◌, map, arith, length, drop,
}
use ws2425_bs_praktikum.Base.Int.{ℤ, pos}
use ws2425_bs_praktikum.Caesar.Kernel.{Kernel, Laws}
use ws2425_bs_praktikum.Caesar.Cipher.{encrypt_byte, decrypt_byte, encrypt, decrypt}
use ws2425_bs_praktikum.Caesar.Buffer.{encrypt-map, decrypt-map}
use ws2425_bs_praktikum.Caesar.Device.{
  m_encrypt, m_decrypt, e_busy, live, freed, ret, Device, dev_open, dev_write, dev_read,
  dev_release,
}
use ws2425_bs_praktikum.Caesar.Transfer.{fits_if, receive-map, send-map}

-- A text of 40 bytes that a program has in memory, the memory for what it reads back, and what
-- kmalloc gave the driver.
pub record Exchange (k : Kernel) : Type 0 where
  pub memory : List ℕ
  pub text : List ℕ
  pub from : k.UserPtr
  pub to : k.UserPtr
  pub full : length memory ≡ 40
  pub long : length text ≡ 40
  pub at : k.readable from 40 ≡ some text
  pub room : k.is_writable to 40 ≡ true

module _ (k : Kernel) (laws : Laws k) where
  -- The devices at the program's calls: both opened, and both texts written.
  abbrev pub opened_dec : Device k → List ℕ → Device k
  opened_dec d memory = record d {
    decrypt_mutex = (k.mutex_trylock d.decrypt_mutex).1;
    dec_buf = live memory;
  }

  abbrev pub opened_enc : Device k → List ℕ → Device k
  opened_enc d memory = record d {
    encrypt_mutex = (k.mutex_trylock d.encrypt_mutex).1;
    enc_buf = live memory;
  }

  pub open_dec :
      (d : Device k) (memory : List ℕ)
      → k.is_locked d.decrypt_mutex ≡ false
      → dev_open k m_decrypt (some memory) d ≡ (pos 0, opened_dec d memory)
  unfolding dev_open
  open_dec d memory e = ground (arith, laws.trylock_free d.decrypt_mutex e)

  pub open_enc :
      (d : Device k) (memory : List ℕ)
      → k.is_locked d.encrypt_mutex ≡ false
      → dev_open k m_encrypt (some memory) d ≡ (pos 0, opened_enc d memory)
  unfolding dev_open
  open_enc d memory e = ground (arith, laws.trylock_free d.encrypt_mutex e)

  pub open_again :
      (d : Device k) (memory : List ℕ) (memory3 : Option (List ℕ))
      → k.is_locked d.decrypt_mutex ≡ false
      → dev_open k m_decrypt memory3 (opened_dec d memory) ≡ (e_busy, opened_dec d memory)
  unfolding dev_open
  open_again d memory memory3 e =
      let m = (k.mutex_trylock d.decrypt_mutex).1 in
      let busy = laws.trylock_busy m (laws.trylock_free d.decrypt_mutex e).1 in rw busy

  module _ (shift : ℤ) (x : Exchange k) where
    open x use {memory, text, from, to, full, long, at, room}

    pub written_to : (ℕ → ℕ) → List ℕ
    written_to f = map f text ++ drop 40 memory

    pub write_dec :
        (d : Device k)
        → d.dec_buf ≡ live memory
        → dev_write k shift m_decrypt from 40 d
          ≡ ret (pos 40) (record d { dec_buf = live (written_to (decrypt_byte shift)) })
    unfolding dev_write written_to
    write_dec d e =
        let r =
          receive-map k laws memory text from (rw long at) full (omega arith) (decrypt_byte shift)
            (decrypt shift)
            (λ b h. decrypt-map shift b (length text) (omega arith) ∙ fits_if none h) in
        let r' = rw long at r in ground (arith, r', e)

    pub write_enc :
        (d : Device k)
        → d.enc_buf ≡ live memory
        → dev_write k shift m_encrypt from 40 d
          ≡ ret (pos 40) (record d { enc_buf = live (written_to (encrypt_byte shift)) })
    unfolding dev_write written_to
    write_enc d e =
        let r =
          receive-map k laws memory text from (rw long at) full (omega arith) (encrypt_byte shift)
            (encrypt shift)
            (λ b h. encrypt-map shift b (length text) (omega arith) ∙ fits_if none h) in
        let r' = rw long at r in ground (arith, r', e)

    pub read_dec :
        (d : Device k)
        → d.dec_buf ≡ live (written_to (decrypt_byte shift))
        → dev_read k m_decrypt to 40 d ≡ ret (pos 0) (map (decrypt_byte shift) text)
    unfolding dev_read written_to
    read_dec d e =
        let r = send-map k laws (decrypt_byte shift) text (drop 40 memory) to (rw long room) in
        rw (e) (rw long at r)

    pub read_enc :
        (d : Device k)
        → d.enc_buf ≡ live (written_to (encrypt_byte shift))
        → dev_read k m_encrypt to 40 d ≡ ret (pos 0) (map (encrypt_byte shift) text)
    unfolding dev_read written_to
    read_enc d e =
        let r = send-map k laws (encrypt_byte shift) text (drop 40 memory) to (rw long room) in
        rw (e) (rw long at r)

  abbrev pub closed_dec : Device k → Device k
  closed_dec d = record d { decrypt_mutex = k.mutex_unlock d.decrypt_mutex; dec_buf = freed }

  abbrev pub closed_enc : Device k → Device k
  closed_enc d = record d { encrypt_mutex = k.mutex_unlock d.encrypt_mutex; enc_buf = freed }

  pub close_dec :
      (d : Device k) (bytes : List ℕ)
      → d.dec_buf ≡ live bytes
      → dev_release k m_decrypt d ≡ ret (pos 0) (closed_dec d)
  unfolding dev_release
  close_dec d bytes e = ground arith

  pub close_enc :
      (d : Device k) (bytes : List ℕ)
      → d.enc_buf ≡ live bytes
      → dev_release k m_encrypt d ≡ ret (pos 0) (closed_enc d)
  unfolding dev_release
  close_enc d bytes e = ground arith
