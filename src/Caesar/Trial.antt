-- ===== src/Caesar/Trial.antt =====
-- Praktikum_4/testcaecar.c, lines 10 to 40: a program that opens the two devices, writes a text to
-- each and reads it back. What it prints of errno, which its prints may change, is left out.
use ws2425_bs_praktikum.Base.{ℕ, Option, List}
use ws2425_bs_praktikum.Base.Int.{ℤ, pos}
use ws2425_bs_praktikum.Caesar.Kernel.{Kernel}
use ws2425_bs_praktikum.Caesar.Device.{m_encrypt, m_decrypt, Outcome, ret, oops, Device}
use ws2425_bs_praktikum.Caesar.Syscalls.{Syscalls}

-- The next call, with the result and the new state of the one before.
infixl 5 ◌>>=◌
abbrev pub ◌>>=◌ : {S T : Type 0} → Outcome S → (ℤ × S → Outcome T) → Outcome T
ret code s >>= f = f (code, s)
oops >>= f = oops

module _ (k : Kernel) (c : Syscalls k) where
  -- What the variables hold at the end, and what the calls returned.
  pub record Trial : Type 0 where
    pub fd : c.Fd
    pub fd3 : c.Fd
    pub fd2 : c.Fd
    pub written : ℤ
    pub written2 : ℤ
    pub out : List ℕ
    pub out2 : List ℕ
    pub device : Device k

  -- What kmalloc gives at the three opens, and the addresses of the two literals and of the two
  -- results of malloc, are arguments.
  unfoldable pub main :
      (translate_shift : ℤ) (memory memory3 memory2 : Option (List ℕ))
      (buf buf2 out out2 : k.UserPtr)
      → Device k
      → Outcome Trial
  main translate_shift memory memory3 memory2 buf buf2 out out2 d =
      let (fd, d1) = c.open_node m_decrypt memory d in
      let (fd3, d2) = c.open_node m_decrypt memory3 d1 in
      let (fd2, d3) = c.open_node m_encrypt memory2 d2 in
      do
        (written, d4) ← c.write translate_shift fd buf 40 d3
        (written2, d5) ← c.write translate_shift fd2 buf2 40 d4
        (_, text) ← c.read fd out 40 d5
        (_, text2) ← c.read fd2 out2 40 d5
        (_, d6) ← c.close fd d5
        (_, d7) ← c.close fd2 d6
        ret (pos 0) (record {
          fd = fd;
          fd3 = fd3;
          fd2 = fd2;
          written = written;
          written2 = written2;
          out = text;
          out2 = text2;
          device = d7;
        })
