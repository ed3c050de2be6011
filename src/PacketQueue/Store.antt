-- ===== src/PacketQueue/Store.antt =====
-- The memory that Praktikum 3/queue.c works on: queue elements and packets at addresses, the mutex
-- in each packet, and the variables queue_index and errno. A command is what one thread does while
-- no other runs.
use ws2425_bs_praktikum.Base.{ℕ, suc, Bool, true, false, Option, none, some, ◌==◌, if◌then◌else◌}
use ws2425_bs_praktikum.Base.Int.{ℤ}

abbrev pub Ptr : Type 0
Ptr = ℕ

abbrev pub null : Ptr
null = 0

-- struct queue_element_t
pub record Element : Type 0 where
  pub packet : Ptr
  pub next : Ptr
  pub prev : Ptr

abbrev pub element : Ptr → Ptr → Ptr → Element
element packet next prev = record { packet = packet; next = next; prev = prev }

-- `packets` gives the num of the struct packet_t at an address, `mutexes` whether its mutex is
-- held. `misuse` counts the calls of pthread_mutex_unlock on a mutex that is not held: they have no
-- defined effect, and none here.
pub record Store : Type 0 where
  pub elements : Ptr → Option Element
  pub packets : Ptr → Option ℤ
  pub mutexes : Ptr → Bool
  pub queue_index : ℤ
  pub errno : ℕ
  pub misuse : ℕ

-- A command ends, or waits for ever for a mutex that nobody will release, or uses a pointer that
-- points to nothing, or has used up the rounds that its loop was given.
pub data Run (A : Type 0) : Type 0 where
  ok : A → Store → Run A
  blocked : Run A
  fault : Run A
  out_of_fuel : Run A

abbrev pub Cmd : Type 0 → Type 0
Cmd A = Store → Run A

abbrev pub pure : {A : Type 0} → A → Cmd A
pure a s = ok a s

module _ {A B : Type 0} where
  abbrev pub and_then : Run A → (A → Cmd B) → Run B
  and_then (ok a s) k = k a s
  and_then blocked k = blocked
  and_then fault k = fault
  and_then out_of_fuel k = out_of_fuel

  infixl 5 ◌>>=◌ ◌>>◌
  abbrev pub ◌>>=◌ : Cmd A → (A → Cmd B) → Cmd B
  m >>= k = λ s. and_then (m s) k

  abbrev pub ◌>>◌ : Cmd A → Cmd B → Cmd B
  m >> n = m >>= λ _. n

abbrev pub update : {A : Type 0} → (Ptr → A) → Ptr → A → Ptr → A
update f p a q = if q == p then a else f q

abbrev pub load_element : Ptr → Cmd Element
load_element p s = elim (s.elements p) [ none ↦ fault | some e ↦ ok e s ]

abbrev pub load_num : Ptr → Cmd ℤ
load_num p s = elim (s.packets p) [ none ↦ fault | some n ↦ ok n s ]

abbrev pub put_element : Ptr → Element → Cmd (Unit {0})
put_element p e s = ok tt (record s { elements = update s.elements p (some e) })

-- What malloc gave: a store through NULL is a fault.
abbrev pub new_element : Ptr → Element → Cmd (Unit {0})
new_element p e s = if p == null then fault else put_element p e s

abbrev pub set_next : Ptr → Ptr → Cmd (Unit {0})
set_next p q = load_element p >>= λ e. put_element p (record e { next = q })

abbrev pub set_prev : Ptr → Ptr → Cmd (Unit {0})
set_prev p q = load_element p >>= λ e. put_element p (record e { prev = q })

abbrev pub free_element : Ptr → Cmd (Unit {0})
free_element p s = ok tt (record s { elements = update s.elements p none })

abbrev pub free_packet : Ptr → Cmd (Unit {0})
free_packet p s = ok tt (record s { packets = update s.packets p none })

-- pthread_mutex_lock and pthread_mutex_unlock of the mutex in the packet at `k`.
abbrev pub lock : Ptr → Cmd (Unit {0})
lock k s = elim (s.packets k) [
  | none ↦ fault
  | some _ ↦ if s.mutexes k then blocked else ok tt (record s { mutexes = update s.mutexes k true })
]

abbrev pub unlock : Ptr → Cmd (Unit {0})
unlock k s = elim (s.packets k) [
  | none ↦ fault
  | some _ ↦
      if s.mutexes k
      then ok tt (record s { mutexes = update s.mutexes k false })
      else ok tt (record s { misuse = suc s.misuse })
]

-- pthread_mutex_unlock of a local copy of that mutex: the mutex itself stays as it is.
abbrev pub unlock_copy : Bool → Cmd (Unit {0})
unlock_copy held s = if held then ok tt s else ok tt (record s { misuse = suc s.misuse })

abbrev pub read_mutex : Ptr → Cmd Bool
read_mutex k s = elim (s.packets k) [ none ↦ fault | some _ ↦ ok (s.mutexes k) s ]

abbrev pub set_errno : ℕ → Cmd (Unit {0})
set_errno code s = ok tt (record s { errno = code })

abbrev pub read_index : Cmd ℤ
read_index s = ok s.queue_index s

abbrev pub write_index : ℤ → Cmd (Unit {0})
write_index i s = ok tt (record s { queue_index = i })
