-- ===== src/Caesar/Tests.antt =====
-- The theorems about Praktikum_4 at concrete states of its devices.
use Prim.Native.String.{String}
use ws2425_bs_praktikum.Base.{
  length, ℕ, ◌+◌, ◌≤◌, ◌<◌, ◌≡◌, ◌↔◌, refl, ap, ◌⊎◌, true, false, none, some, List, [], ◌∷◌, ◌++◌,
  map, arith, replicate,
}
use ws2425_bs_praktikum.Base.Int.{pos, eqb_ℤ, add32, to_char}
use ws2425_bs_praktikum.Caesar.Cipher.{encrypt_byte, decrypt_byte, encrypt, decrypt}
use ws2425_bs_praktikum.Caesar.Alphabet.{bytes-rotate}
use ws2425_bs_praktikum.Caesar.Roundtrip.{Restores, encrypt-decrypt}
use ws2425_bs_praktikum.Caesar.Buffer.{buffers-map}
use ws2425_bs_praktikum.Caesar.Device.{
  receive, receive, buffer_size, m_encrypt, CharPtr, null, live, freed, ret, oops, Device, dev_open,
  dev_read, dev_write, buffer_of,
}
use ws2425_bs_praktikum.Caesar.Sessions.{System, opens, Reach, loaded, later, Inv}
use ws2425_bs_praktikum.Caesar.Exclusion.{Reach-Inv, write-oops}
use ws2425_bs_praktikum.Caesar.Transfer.{code_of, write-read_both, read-oops}
use ws2425_bs_praktikum.Caesar.Registration.{valid, error, Answers, caesar_init, caesar_exit}
use ws2425_bs_praktikum.Caesar.Balance.{
  class, device, acquired, released, init_balance, exit_balance,
}
use ws2425_bs_praktikum.Base.Text.{codes}
use ws2425_bs_praktikum.Caesar.Sample.{
  user_bytes, test_kernel, test_laws, test_calls, test_calls_lem,
}
use ws2425_bs_praktikum.Caesar.Calls.{Exchange}
use ws2425_bs_praktikum.Caesar.Sample.{user_bytes}
use ws2425_bs_praktikum.Caesar.Trial.{Trial, main}
use ws2425_bs_praktikum.Caesar.Printed.{main-out}

abbrev fresh_buffer : List ℕ
fresh_buffer = replicate 40 7

abbrev closed_device : Device test_kernel
closed_device = record {
  encrypt_mutex = false;
  decrypt_mutex = false;
  enc_buf = null;
  dec_buf = null;
}

abbrev closed : System test_kernel
closed = record { device = closed_device; enc_files = 0; dec_files = 0 }

abbrev open_device : CharPtr → Device test_kernel
open_device p = record { encrypt_mutex = true; decrypt_mutex = false; enc_buf = p; dec_buf = null }

abbrev opened : CharPtr → System test_kernel
opened p = record { device = open_device p; enc_files = 1; dec_files = 0 }

closed_reached : Reach test_kernel closed
closed_reached =
    loaded (record { enc_free = refl; dec_free = refl; no_enc_file = refl; no_dec_file = refl })

opened_reached : Reach test_kernel (opened (live fresh_buffer))
unfolding dev_open
opened_reached = later closed_reached (opens 0 (some fresh_buffer) refl refl)

starved_reached : Reach test_kernel (opened null)
unfolding dev_open
starved_reached = later closed_reached (opens 0 none tt refl)

abbrev hallo : List ℕ
hallo = 72 ∷ 97 ∷ 108 ∷ 108 ∷ 111 ∷ []

bytes-rotate_example : (encrypt_byte (pos 3) 122 ≡ 67) × (decrypt_byte (pos 3) 122 ≡ 119)
bytes-rotate_example = bytes-rotate 3 122 (omega arith) (omega arith) (omega arith)

buffers-map_example :
    (encrypt (pos 3) (97 ∷ 32 ∷ 7 ∷ []) 2
      ≡ some (encrypt_byte (pos 3) 97 ∷ encrypt_byte (pos 3) 32 ∷ 7 ∷ []))
    × (decrypt (pos 3) (97 ∷ 32 ∷ 7 ∷ []) 2
        ≡ some (decrypt_byte (pos 3) 97 ∷ decrypt_byte (pos 3) 32 ∷ 7 ∷ []))
buffers-map_example = buffers-map (pos 3) (97 ∷ 32 ∷ 7 ∷ []) 2

encrypt-decrypt_example : Restores (pos 3) ↔ ((k : ℕ) × (pos 3 ≡ pos k) × (1 ≤ k) × (k ≤ 26))
encrypt-decrypt_example = encrypt-decrypt (pos 3) (omega arith)

Reach-Inv_example : Inv test_kernel (opened (live fresh_buffer))
Reach-Inv_example = Reach-Inv test_kernel test_laws opened_reached

starved_write : dev_write test_kernel (pos 3) 0 (some hallo) 5 (open_device null) ≡ oops
unfolding dev_write receive
starved_write = refl

write-oops_example : buffer_of test_kernel 0 (open_device null) ≡ null
write-oops_example =
    write-oops test_kernel test_laws (pos 3) 0 (some hallo) 5 starved_reached (omega arith)
      starved_write

-- "Kdoor", which is "Hallo" with a shift of 3.
abbrev kdoor : List ℕ
kdoor = 75 ∷ 100 ∷ 111 ∷ 111 ∷ 114 ∷ []

kdoor_lem : kdoor ≡ map (code_of test_kernel test_laws (pos 3) m_encrypt) hallo
unfolding encrypt_byte add32 to_char
kdoor_lem = refl

kdoor_readable :
    user_bytes (some kdoor) 5 ≡ some (map (code_of test_kernel test_laws (pos 3) m_encrypt) hallo)
kdoor_readable = ap some kdoor_lem

abbrev decrypting : Device test_kernel
decrypting = record {
  encrypt_mutex = false;
  decrypt_mutex = true;
  enc_buf = null;
  dec_buf = live fresh_buffer;
}

write-read_both_example :
    (t : Device test_kernel) × (dev_write test_kernel (pos 3) 1 (some kdoor) 5 decrypting
      ≡ ret (pos 5) t)
    × (dev_read test_kernel 1 (some []) 5 t ≡ ret (pos 0) hallo)
write-read_both_example =
    write-read_both test_kernel test_laws 3 fresh_buffer hallo (some kdoor) (some []) decrypting
      (omega arith) (omega arith) kdoor_readable (ground arith) refl refl (omega arith) refl

read-oops_example :
    (dev_read test_kernel 0 (some []) 41 (open_device (live fresh_buffer)) ≡ oops)
    ↔ (((live fresh_buffer ≡ null) × (0 < 41)) ⊎ (buffer_size < 41))
read-oops_example = read-oops test_kernel test_laws 0 (some []) 41 opened_reached (omega arith) refl

-- Everything granted, and everything but the device decrypt.
abbrev all_granted : Answers
all_granted = record {
  major = pos 240;
  class = valid;
  encrypt_device = valid;
  decrypt_device = valid;
}

abbrev no_decrypt : Answers
no_decrypt = record {
  major = pos 240;
  class = valid;
  encrypt_device = valid;
  decrypt_device = error 11;
}

init_balance_example :
    (eqb_ℤ (caesar_init no_decrypt).0 (pos 0) ≡ false)
    × (acquired (device 0) (caesar_init no_decrypt).1
        ≡ released (device 0) (caesar_init no_decrypt).1 + 1)
init_balance_example = init_balance no_decrypt (device 0)

exit_balance_example :
    released class ((caesar_init all_granted).1 ++ caesar_exit)
    ≡ acquired class ((caesar_init all_granted).1 ++ caesar_exit) + 1
exit_balance_example = exit_balance all_granted class refl

-- The two literals of testcaecar.c, with something behind them.
abbrev literal : String → List ℕ
literal s = codes s ++ 0 ∷ replicate 27 77

abbrev exchange_of :
    (text : List ℕ)
    → length text ≡ 40
    → user_bytes (some text) 40 ≡ some text
    → Exchange test_kernel
exchange_of text long at = record {
  memory = fresh_buffer;
  text = text;
  from = some text;
  to = some [];
  full = refl;
  long = long;
  at = at;
  room = refl;
}

abbrev for_dec : Exchange test_kernel
for_dec = exchange_of (literal "Kdoorckdoor!") refl refl

abbrev for_enc : Exchange test_kernel
for_enc = exchange_of (literal "Hallo hallo!") refl refl

main-out_example :
    (r : Trial test_kernel test_calls) × (main test_kernel test_calls
        (pos 5)
        (some fresh_buffer)
        none
        (some fresh_buffer)
        (some (literal "Kdoorckdoor!"))
        (some (literal "Hallo hallo!"))
        (some [])
        (some [])
        closed_device
      ≡ ret (pos 0) r)
    × (r.fd3 ≡ none)
    × (r.written ≡ pos 40)
    × (r.written2 ≡ pos 40)
    × (r.out ≡ map (decrypt_byte (pos 5)) (literal "Kdoorckdoor!"))
    × (r.out2 ≡ map (encrypt_byte (pos 5)) (literal "Hallo hallo!"))
    × (r.device.decrypt_mutex ≡ false)
    × (r.device.encrypt_mutex ≡ false)
    × (r.device.dec_buf ≡ freed)
    × (r.device.enc_buf ≡ freed)
main-out_example =
    main-out test_kernel test_laws test_calls test_calls_lem (pos 5) for_dec for_enc none
      closed_device refl refl
