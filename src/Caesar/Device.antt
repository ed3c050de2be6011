-- ===== src/Caesar/Device.antt =====
-- The file operations of Praktikum_4/caesar.c: dev_open, dev_read, dev_write and dev_release over
-- the module's static variables.
use ws2425_bs_praktikum.Base.{
  ℕ, Option, none, some, List, [], ltb, leb, ◌==◌, if◌then◌else◌, length,
}
use ws2425_bs_praktikum.Base.Int.{ℤ, pos, negsuc}
use ws2425_bs_praktikum.Caesar.Cipher.{encrypt, decrypt}
use ws2425_bs_praktikum.Caesar.Kernel.{Kernel}

abbrev pub buffer_size : ℕ
buffer_size = 40

abbrev pub m_encrypt : ℕ
m_encrypt = 0

abbrev pub m_decrypt : ℕ
m_decrypt = 1

-- -EBUSY and -EFAULT
abbrev pub e_busy : ℤ
e_busy = negsuc 15

abbrev pub e_fault : ℤ
e_fault = negsuc 13

-- A pointer to a buffer: never set or kmalloc failed, a buffer in use, or dangling after kfree.
pub data CharPtr : Type 0 where
  null : CharPtr
  live : List ℕ → CharPtr
  freed : CharPtr

-- What kmalloc returns: nothing, or a buffer with whatever it holds.
abbrev pub kmalloc : Option (List ℕ) → CharPtr
kmalloc none = null
kmalloc (some bytes) = live bytes

-- The buffer behind a pointer, where its first `len` bytes may be used. No byte may be used behind
-- every pointer.
abbrev pub deref : CharPtr → ℕ → Option (List ℕ)
deref null len = if len == 0 then some [] else none
deref (live bytes) len = if leb len (length bytes) then some bytes else none
deref freed len = if len == 0 then some [] else none

-- The pointer after a store of bytes through it. Behind the others there is no byte to change.
abbrev pub holding : CharPtr → List ℕ → CharPtr
holding null bytes = null
holding (live _) bytes = live bytes
holding freed bytes = freed

-- A handler's return value and the new state, or an access outside every buffer.
pub data Outcome {ℓ} (S : Type ℓ) : Type ℓ where
  ret : ℤ → S → Outcome S
  oops : Outcome S

-- kfree ignores NULL; a second kfree of a buffer is an error.
abbrev pub kfree : CharPtr → Outcome CharPtr
kfree null = ret (pos 0) null
kfree (live bytes) = ret (pos 0) freed
kfree freed = oops

pub record Device (k : Kernel) : Type 0 where
  pub encrypt_mutex : k.Mutex
  pub decrypt_mutex : k.Mutex
  pub enc_buf : CharPtr
  pub dec_buf : CharPtr

module _ (k : Kernel) where
  -- `memory` is what kmalloc gives. The two tests of the source exclude one another.
  unfoldable pub dev_open : (minor_num : ℕ) (memory : Option (List ℕ)) → Device k → ℤ × Device k
  dev_open minor_num memory d =
      if minor_num == m_encrypt
      then (let (got, m) = k.mutex_trylock d.encrypt_mutex in
          if got == 0
          then (e_busy, record d { encrypt_mutex = m })
          else (pos 0, record d { encrypt_mutex = m; enc_buf = kmalloc memory }))
      else if minor_num == m_decrypt
      then (let (got, m) = k.mutex_trylock d.decrypt_mutex in
          if got == 0
          then (e_busy, record d { decrypt_mutex = m })
          else (pos 0, record d { decrypt_mutex = m; dec_buf = kmalloc memory }))
      else (pos 0, d)

  -- The copy of `dev_read`: what user space receives is the new state. The buffer is used as far as
  -- copy_to_user looks at it.
  unfoldable pub send : CharPtr → k.UserPtr → ℕ → Outcome (List ℕ)
  send from buffer len = elim (deref from (k.bytes_read buffer len)) [
    | none ↦ oops
    | some bytes ↦
        let (err, sent) = k.copy_to_user buffer bytes len in
        if err == 0 then ret (pos 0) sent else ret e_fault sent
  ]

  unfoldable pub dev_read : (minor_num : ℕ) → k.UserPtr → ℕ → Device k → Outcome (List ℕ)
  dev_read minor_num buffer len d =
      if minor_num == m_encrypt
      then send d.enc_buf buffer len
      else if minor_num == m_decrypt
      then send d.dec_buf buffer len
      else ret (pos 0) []

  -- One branch of `dev_write`: the copy from user space, then the loop over the buffer. The copy
  -- stores all of the len bytes, zeros for those that it cannot get.
  unfoldable pub receive :
      (List ℕ → ℕ → Option (List ℕ)) → CharPtr → k.UserPtr → ℕ → Outcome CharPtr
  receive translate to buffer len = elim (deref to len) [
    | none ↦ oops
    | some bytes ↦
        let (err, received) = k.copy_from_user bytes buffer len in
        if err == 0
        then elim (translate received len) [
          | none ↦ oops
          | some done ↦ ret (pos len) (holding to done)
        ]
        else ret e_fault (holding to received)
  ]

  abbrev pub with_enc_buf : Device k → Outcome CharPtr → Outcome (Device k)
  with_enc_buf d (ret code p) = ret code (record d { enc_buf = p })
  with_enc_buf d oops = oops

  abbrev pub with_dec_buf : Device k → Outcome CharPtr → Outcome (Device k)
  with_dec_buf d (ret code p) = ret code (record d { dec_buf = p })
  with_dec_buf d oops = oops

  unfoldable pub dev_write :
      (translate_shift : ℤ) (minor_num : ℕ) → k.UserPtr → ℕ → Device k → Outcome (Device k)
  dev_write translate_shift minor_num buffer len d =
      if ltb buffer_size len
      then ret e_fault d
      else if minor_num == m_encrypt
      then with_enc_buf d (receive (encrypt translate_shift) d.enc_buf buffer len)
      else if minor_num == m_decrypt
      then with_dec_buf d (receive (decrypt translate_shift) d.dec_buf buffer len)
      else ret (pos len) d

  unfoldable pub dev_release : (minor_num : ℕ) → Device k → Outcome (Device k)
  dev_release minor_num d =
      if minor_num == m_encrypt
      then with_enc_buf (record d { encrypt_mutex = k.mutex_unlock d.encrypt_mutex })
          (kfree d.enc_buf)
      else if minor_num == m_decrypt
      then with_dec_buf (record d { decrypt_mutex = k.mutex_unlock d.decrypt_mutex })
          (kfree d.dec_buf)
      else ret (pos 0) d

  -- The part of the state that belongs to a device.
  abbrev pub buffer_of : (minor_num : ℕ) → Device k → CharPtr
  buffer_of minor_num d = if minor_num == m_encrypt then d.enc_buf else d.dec_buf

  abbrev pub mutex_of : (minor_num : ℕ) → Device k → k.Mutex
  mutex_of minor_num d = if minor_num == m_encrypt then d.encrypt_mutex else d.decrypt_mutex
