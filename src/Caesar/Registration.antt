-- ===== src/Caesar/Registration.antt =====
-- Loading and unloading of the module of Praktikum_4/caesar.c: caesar_init and caesar_exit as the
-- calls that they make, given what the kernel answers.
use ws2425_bs_praktikum.Base.{ℕ, Bool, true, false, List, [], ◌∷◌, ◌++◌, if◌then◌else◌}
use ws2425_bs_praktikum.Base.Int.{ℤ, pos, negsuc, ltb_ℤ}
use ws2425_bs_praktikum.Caesar.Device.{m_encrypt, m_decrypt}

-- A pointer that a kernel function returns: valid, or an error pointer with PTR_ERR -(n + 1).
pub data KernelPtr : Type 0 where
  valid : KernelPtr
  error : ℕ → KernelPtr

abbrev pub is_err : KernelPtr → Bool
is_err valid = false
is_err (error n) = true

abbrev ptr_err : KernelPtr → ℤ
ptr_err valid = pos 0
ptr_err (error n) = negsuc n

-- What the kernel answers to the calls of caesar_init that can fail.
pub record Answers : Type 0 where
  pub major : ℤ
  pub class : KernelPtr
  pub encrypt_device : KernelPtr
  pub decrypt_device : KernelPtr

-- The calls, each with its answer where it has one.
pub data Call : Type 0 where
  mutex_init : ℕ → Call
  mutex_destroy : ℕ → Call
  register_chrdev : ℤ → Call
  unregister_chrdev : Call
  class_create : KernelPtr → Call
  class_unregister : Call
  class_destroy : Call
  device_create : ℕ → KernelPtr → Call
  device_destroy : ℕ → Call

unfoldable pub caesar_init : Answers → ℤ × List Call
caesar_init a =
    let mutexes = mutex_init m_encrypt ∷ mutex_init m_decrypt ∷ register_chrdev a.major ∷ [] in
    if ltb_ℤ a.major (pos 0)
    then (a.major, mutexes)
    else let classes = mutexes ++ class_create a.class ∷ [] in
      if is_err a.class
      then (ptr_err a.class, classes ++ unregister_chrdev ∷ [])
      else let encrypts = classes ++ device_create m_encrypt a.encrypt_device ∷ [] in
        if is_err a.encrypt_device
        then (ptr_err a.encrypt_device, encrypts ++ class_destroy ∷ unregister_chrdev ∷ [])
        else let decrypts = encrypts ++ device_create m_decrypt a.decrypt_device ∷ [] in
          if is_err a.decrypt_device
          then (ptr_err a.decrypt_device, decrypts ++ class_destroy ∷ unregister_chrdev ∷ [])
          else (pos 0, decrypts)

unfoldable pub caesar_exit : List Call
caesar_exit =
    device_destroy m_encrypt
    ∷ device_destroy m_decrypt
    ∷ class_unregister
    ∷ class_destroy
    ∷ unregister_chrdev
    ∷ unregister_chrdev
    ∷ mutex_destroy m_encrypt
    ∷ mutex_destroy m_decrypt
    ∷ []
