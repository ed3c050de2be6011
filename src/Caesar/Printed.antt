-- ===== src/Caesar/Printed.antt =====
-- What Praktikum_4/testcaecar.c gets from the devices of Praktikum_4/caesar.c.
use ws2425_bs_praktikum.Base.{
  ℕ, ◌≡◌, ◌∙◌, refl, ap, false, Option, none, some, List, ◌∷◌, ◌++◌, map,
}
use ws2425_bs_praktikum.Base.Int.{ℤ, pos, add32, sub32, to_char}
use ws2425_bs_praktikum.Base.Text.{codes, c_string}
use ws2425_bs_praktikum.Caesar.Kernel.{Kernel, Laws}
use ws2425_bs_praktikum.Caesar.Cipher.{encrypt_byte, decrypt_byte}
use ws2425_bs_praktikum.Caesar.Device.{m_encrypt, m_decrypt, e_busy, live, freed, ret, Device}
use ws2425_bs_praktikum.Caesar.Syscalls.{Syscalls, Passes}
use ws2425_bs_praktikum.Caesar.Trial.{Trial, main}
use ws2425_bs_praktikum.Caesar.Calls.{
  Exchange, closed_dec, closed_enc, opened_dec, opened_enc, open_dec, open_enc, open_again,
  written_to, write_dec, write_enc, read_dec, read_enc, close_dec, close_enc,
}

module _ (k : Kernel) (laws : Laws k) where
  -- With a kernel that keeps the laws and system calls that pass the driver's answers on, with both
  -- devices closed, 40 bytes readable at each literal, 40 bytes of memory for each answer, and
  -- kmalloc granting the two opens that are used: testcaecar.c opens decrypt once, though it tries
  -- twice, reads the bytes at its first literal decrypted and those at its second encrypted, and
  -- leaves both devices closed and their buffers freed.
  pub main-out :
      (c : Syscalls k) (passes : Passes k c) (shift : ℤ) (x x2 : Exchange k)
      (memory3 : Option (List ℕ)) (d : Device k)
      → k.is_locked d.decrypt_mutex ≡ false
      → k.is_locked d.encrypt_mutex ≡ false
      → (r : Trial k c) × (main k c shift
            (some x.memory)
            memory3
            (some x2.memory)
            x.from
            x2.from
            x.to
            x2.to
            d
          ≡ ret (pos 0) r)
        × (c.device_of r.fd3 ≡ none)
        × (r.written ≡ pos 40)
        × (r.written2 ≡ pos 40)
        × (r.out ≡ map (decrypt_byte shift) x.text)
        × (r.out2 ≡ map (encrypt_byte shift) x2.text)
        × (k.is_locked r.device.decrypt_mutex ≡ false)
        × (k.is_locked r.device.encrypt_mutex ≡ false)
        × (r.device.dec_buf ≡ freed)
        × (r.device.enc_buf ≡ freed)
  unfolding main
  main-out c passes shift x x2 memory3 d f f2 =
      let d1 = opened_dec k laws d x.memory in
      let o1 = passes.open_granted m_decrypt _ d d1 (open_dec k laws d x.memory f) in
      let again = open_again k laws d x.memory memory3 f in
      let o2 = passes.open_refused m_decrypt memory3 d1 d1 e_busy again (λ e. cc) in
      let d3 = opened_enc k laws d1 x2.memory in
      let o3 = passes.open_granted m_encrypt _ d1 d3 (open_enc k laws d1 x2.memory f2) in
      let fd = (c.open_node m_decrypt (some x.memory) d).0 in
      let fd2 = (c.open_node m_encrypt (some x2.memory) d1).0 in
      let kept = written_to k laws shift x (decrypt_byte shift) in
      let kept2 = written_to k laws shift x2 (encrypt_byte shift) in
      let d4 : Device k = record d3 { dec_buf = live kept } in
      let d5 : Device k = record d4 { enc_buf = live kept2 } in
      let d6 = closed_dec k laws d5 in
      let d7 = closed_enc k laws d6 in
      let w1 =
        passes.write_passes shift fd _ _ 40 40 d3 d4 o1.0 (write_dec k laws shift x d3 refl) in
      let w2 =
        passes.write_passes shift fd2 _ _ 40 40 d4 d5 o3.0 (write_enc k laws shift x2 d4 refl) in
      let r1 = passes.read_passes fd _ _ 40 0 d5 _ o1.0 (read_dec k laws shift x d5 refl) in
      let r2 = passes.read_passes fd2 _ _ 40 0 d5 _ o3.0 (read_enc k laws shift x2 d5 refl) in
      let c1 = passes.close_passes fd _ d5 d6 (pos 0) o1.0 (close_dec k laws d5 kept refl) in
      let c2 = passes.close_passes fd2 _ d6 d7 (pos 0) o3.0 (close_enc k laws d6 kept2 refl) in
      (
        record {
          fd = fd;
          fd3 = (c.open_node m_decrypt memory3 d1).0;
          fd2 = fd2;
          written = pos 40;
          written2 = pos 40;
          out = map (decrypt_byte shift) x.text;
          out2 = map (encrypt_byte shift) x2.text;
          device = d7;
        },
        rw (o1.1, o2.1, o3.1, w1, w2, r1, r2, c1, c2) refl,
        o2.0,
        refl,
        refl,
        refl,
        refl,
        laws.unlock_free d5.decrypt_mutex,
        laws.unlock_free d6.encrypt_mutex,
        refl,
        refl,
      )

  -- With translate_shift at its default 3, the two literals in memory, whatever stands behind them,
  -- and otherwise as before: the strings that testcaecar.c prints are "Hallo hallo!", from the
  -- device decrypt, and "Kdoorckdoor!", from encrypt.
  main-texts :
      (c : Syscalls k) (passes : Passes k c) (x x2 : Exchange k) (behind behind2 : List ℕ)
      (memory3 : Option (List ℕ)) (d : Device k)
      → k.is_locked d.decrypt_mutex ≡ false
      → k.is_locked d.encrypt_mutex ≡ false
      → x.text ≡ codes "Kdoorckdoor!" ++ 0 ∷ behind
      → x2.text ≡ codes "Hallo hallo!" ++ 0 ∷ behind2
      → (r : Trial k c) × (main k c
            (pos 3)
            (some x.memory)
            memory3
            (some x2.memory)
            x.from
            x2.from
            x.to
            x2.to
            d
          ≡ ret (pos 0) r)
        × (c_string r.out ≡ codes "Hallo hallo!")
        × (c_string r.out2 ≡ codes "Kdoorckdoor!")
  unfolding encrypt_byte decrypt_byte add32 sub32 to_char
  main-texts c passes x x2 behind behind2 memory3 d f f2 e e2 =
      let r = main-out c passes (pos 3) x x2 memory3 d f f2 in
      (
        r.0,
        r.1,
        ap c_string (r.5 ∙ ap (map (decrypt_byte (pos 3))) e),
        ap c_string (r.6 ∙ ap (map (encrypt_byte (pos 3))) e2),
      )
