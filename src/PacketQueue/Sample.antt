-- ===== src/PacketQueue/Sample.antt =====
-- Queues of Praktikum 3 with a few packets.
use ws2425_bs_praktikum.Base.{
  refl, none, some, false, ◌==◌, ◌||◌, if◌then◌else◌, Option, Bool, [], ◌∷◌, arith,
}
use ws2425_bs_praktikum.Base.Int.{ℤ, pos, negsuc}
use ws2425_bs_praktikum.PacketQueue.Store.{Store, Ptr, element}
use ws2425_bs_praktikum.PacketQueue.Cells.{Cell, cell, IsQueue}
use ws2425_bs_praktikum.PacketQueue.Add.{IsNew}
use ws2425_bs_praktikum.PacketQueue.Stolen.{AtEnd}

abbrev pub no_mutex : Ptr → Bool
no_mutex k = false

-- Packets at 11, 12, 13 and 14 with the numbers 5, 7, 6 and 5.
abbrev pub nums : Ptr → Option ℤ
nums p =
    if p == 1
    then some (negsuc 0)
    else if p == 11
    then some (pos 5)
    else if p == 12
    then some (pos 7)
    else if p == 13
    then some (pos 6)
    else if p == 14
    then some (pos 5)
    else none

abbrev pub empty_queue : Store
empty_queue = record {
  elements = λ p. if p == 1 then some (element 1 0 0) else none;
  packets = nums;
  mutexes = no_mutex;
  queue_index = pos 0;
  errno = 0;
  misuse = 0;
}

-- The packets at 11 and 12 are in the queue.
abbrev pub two_packets : Store
two_packets = record {
  elements = λ p.
      if p == 1
      then some (element 1 21 0)
      else if p == 21
      then some (element 11 22 1)
      else if p == 22
      then some (element 12 0 21)
      else none;
  packets = nums;
  mutexes = no_mutex;
  queue_index = pos 2;
  errno = 0;
  misuse = 0;
}

abbrev pub five : Cell
five = cell 21 11 (pos 5)

abbrev pub seven : Cell
seven = cell 22 12 (pos 7)

abbrev pub six : Cell
six = cell 23 13 (pos 6)

abbrev pub other_five : Cell
other_five = cell 24 14 (pos 5)

pub empty_queue-IsQueue : IsQueue empty_queue no_mutex []
empty_queue-IsQueue = record {
  chain = ground arith;
  distinct = (tt, tt, tt);
  ascending = (tt, tt);
  counted = refl;
  locks = λ k. refl;
  unlocked = (refl, tt);
}

pub two_packets-IsQueue : IsQueue two_packets no_mutex (five ∷ seven ∷ [])
two_packets-IsQueue = record {
  chain = ground arith;
  distinct = ground arith;
  ascending = ground arith;
  counted = refl;
  locks = λ k. refl;
  unlocked = ground arith;
}

pub six-IsNew : IsNew two_packets no_mutex six (five ∷ seven ∷ [])
six-IsNew = ground arith

pub other_five-IsNew : IsNew two_packets no_mutex other_five (five ∷ seven ∷ [])
other_five-IsNew = ground arith

-- Only the packet at 11 is in the queue.
abbrev pub one_packet : Store
one_packet = record two_packets {
  elements = λ p.
      if p == 1 then some (element 1 21 0) else if p == 21 then some (element 11 0 1) else none;
  queue_index = pos 1;
}

pub one_packet-IsQueue : IsQueue one_packet no_mutex (five ∷ [])
one_packet-IsQueue = record {
  chain = ground arith;
  distinct = ground arith;
  ascending = ground arith;
  counted = refl;
  locks = λ k. refl;
  unlocked = ground arith;
}

-- A walker has the mutexes of both packets.
abbrev pub walked : Store
walked = record two_packets { mutexes = λ k. k == 11 || k == 12 }

pub walked-AtEnd : AtEnd walked 22 21 (element 12 0 21) (element 11 22 1)
walked-AtEnd = record {
  here = refl;
  last = refl;
  before = refl;
  number = pos 7;
  num = refl;
  number_before = pos 5;
  num_before = refl;
  lives = ground arith;
  apart = ground arith;
  own_packets = ground arith;
  holds = refl;
  holds_before = refl;
}
