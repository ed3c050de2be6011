-- ===== src/Caesar/Balance.antt =====
-- What loading and unloading the module of Praktikum_4/caesar.c acquires from the kernel and gives
-- back, counted over the calls of caesar_init and caesar_exit.
use ws2425_bs_praktikum.Base.{
  ℕ, ◌+◌, ◌≡◌, Bool, true, false, not, ◌||◌, ◌&&◌, List, [], ◌∷◌, ◌++◌, arith, ◌==◌, if◌then◌else◌,
}
use ws2425_bs_praktikum.Base.Int.{pos, ltb_ℤ, eqb_ℤ}
use ws2425_bs_praktikum.Caesar.Device.{m_encrypt, m_decrypt}
use ws2425_bs_praktikum.Caesar.Registration.{
  valid, is_err, Answers, Call, register_chrdev, unregister_chrdev, class_create, class_unregister,
  class_destroy, device_create, device_destroy, caesar_init, caesar_exit,
}

-- What a load acquires from the kernel.
pub data Resource : Type 0 where
  chrdev class : Resource
  device : ℕ → Resource

-- 1 if the call acquires the resource.
abbrev acquires : Resource → Call → ℕ
acquires chrdev (register_chrdev major) = if ltb_ℤ major (pos 0) then 0 else 1
acquires class (class_create valid) = 1
acquires (device minor) (device_create m valid) = if m == minor then 1 else 0
acquires _ _ = 0

-- 1 if the call gives it back. class_destroy unregisters the class, as class_unregister does.
abbrev releases : Resource → Call → ℕ
releases chrdev unregister_chrdev = 1
releases class class_unregister = 1
releases class class_destroy = 1
releases (device minor) (device_destroy m) = if m == minor then 1 else 0
releases _ _ = 0

abbrev pub count : (Call → ℕ) → List Call → ℕ
count f [] = 0
count f (c ∷ cs) = f c + count f cs

abbrev pub acquired : Resource → List Call → ℕ
acquired r cs = count (acquires r) cs

abbrev pub released : Resource → List Call → ℕ
released r cs = count (releases r) cs

-- The resources of a loaded module.
abbrev pub is_used : Resource → Bool
is_used chrdev = true
is_used class = true
is_used (device minor) = minor == m_encrypt || minor == m_decrypt

-- The one resource that a failed load keeps.
abbrev pub is_leaked : Resource → Bool
is_leaked (device minor) = minor == m_encrypt
is_leaked _ = false

-- What caesar_exit gives back twice.
abbrev pub is_twice : Resource → Bool
is_twice (device minor) = false
is_twice _ = true

-- The kernel granted what caesar_init asks for before the device decrypt, and that too.
abbrev pub before_decrypt : Answers → Bool
before_decrypt a =
    not (ltb_ℤ a.major (pos 0)) && not (is_err a.class) && not (is_err a.encrypt_device)

abbrev pub granted : Answers → Bool
granted a = before_decrypt a && not (is_err a.decrypt_device)

abbrev number : Bool → ℕ
number b = if b then 1 else 0

init-granted : (a : Answers) → eqb_ℤ (caesar_init a).0 (pos 0) ≡ granted a
unfolding caesar_init
init-granted a = ground arith

-- caesar_init, whatever the kernel answers: it returns 0 exactly if everything was granted, and
-- then keeps the character device, the class and both devices, each once. When it fails it has
-- given back what it had acquired, but for one case: if only the device decrypt was refused, the
-- device encrypt is not destroyed.
pub init_balance :
    (a : Answers) (r : Resource)
    → (eqb_ℤ (caesar_init a).0 (pos 0) ≡ granted a)
      × (acquired r (caesar_init a).1
          ≡ released r (caesar_init a).1
            + (if granted a then number (is_used r) else number (before_decrypt a && is_leaked r)))
unfolding caesar_init
init_balance a chrdev = (init-granted a, ground arith)
init_balance a class = (init-granted a, ground arith)
init_balance a (device minor) = (init-granted a, ground arith)

-- Loading and unloading, everything granted: the devices are given back once each, but the class
-- and the character device are given back twice.
pub exit_balance :
    (a : Answers) (r : Resource)
    → granted a ≡ true
    → released r ((caesar_init a).1 ++ caesar_exit)
      ≡ acquired r ((caesar_init a).1 ++ caesar_exit) + number (is_twice r)
unfolding caesar_init caesar_exit
exit_balance a chrdev h = ground arith
exit_balance a class h = ground arith
exit_balance a (device minor) h = ground arith
