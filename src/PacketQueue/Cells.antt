-- ===== src/PacketQueue/Cells.antt =====
-- What the queue of Praktikum 3/queue.c stands for: its cells from the head on, as a doubly linked
-- chain in memory.
use ws2425_bs_praktikum.Base.{
  ◌+◌, ◌<◌, ◌≡◌, ◌≢◌, sym, ◌∙◌, Bool, false, Option, none, some, List, [], ◌∷◌, if◌then◌else◌,
  length,
}
use ws2425_bs_praktikum.Base.Int.{ℤ, pos, negsuc, pos_part, neg_part, ltb_ℤ, eqb_ℤ}
use ws2425_bs_praktikum.PacketQueue.Store.{Ptr, null, element, Store}
use ws2425_bs_praktikum.PacketQueue.Operations.{queue_head, empty_packet}

-- An element, its packet and the packet's number.
pub record Cell : Type 0 where
  pub at : Ptr
  pub packet : Ptr
  pub num : ℤ

abbrev pub Cells : Type 0
Cells = List Cell

abbrev pub cell : Ptr → Ptr → ℤ → Cell
cell p k n = record { at = p; packet = k; num = n }

abbrev pub head_cell : Cell
head_cell = cell queue_head empty_packet (negsuc 0)

abbrev pub first_at : Cells → Ptr
first_at [] = null
first_at (c ∷ cs) = c.at

-- From `prev` on the cells are linked in both directions, to NULL at the end.
abbrev pub Chain : Store → Ptr → Cells → Type 0
Chain s prev [] = Unit
Chain s prev (c ∷ cs) =
    (c.at ≢ null)
    × (s.elements c.at ≡ some (element c.packet (first_at cs) prev))
    × (s.packets c.packet ≡ some c.num)
    × Chain s c.at cs

-- No cell at the address, no cell with the packet.
abbrev pub Apart : Ptr → Cells → Type 0
Apart p [] = Unit
Apart p (c ∷ cs) = (p ≢ c.at) × Apart p cs

abbrev pub Foreign : Ptr → Cells → Type 0
Foreign k [] = Unit
Foreign k (c ∷ cs) = (k ≢ c.packet) × Foreign k cs

abbrev pub Distinct : Cells → Type 0
Distinct [] = Unit
Distinct (c ∷ cs) = Apart c.at cs × Foreign c.packet cs × Distinct cs

infix 50 ◌<ℤ◌
abbrev pub ◌<ℤ◌ : ℤ → ℤ → Type 0
a <ℤ b = pos_part a + neg_part b < pos_part b + neg_part a

abbrev pub Above : ℤ → Cells → Type 0
Above n [] = Unit
Above n (c ∷ cs) = (n <ℤ c.num) × Above n cs

-- Strictly ascending numbers.
abbrev pub Ascending : Cells → Type 0
Ascending [] = Unit
Ascending (c ∷ cs) = Above c.num cs × Ascending cs

-- No mutex of the cells is among the held ones.
abbrev pub Unlocked : (Ptr → Bool) → Cells → Type 0
Unlocked held [] = Unit
Unlocked held (c ∷ cs) = (held c.packet ≡ false) × Unlocked held cs

-- The queue holds these cells and no thread is in it: the head and the cells are linked, nothing is
-- shared, the numbers ascend from the -1 of the head, queue_index counts them. The mutexes that are
-- held belong to packets outside the queue.
pub record IsQueue (s : Store) (held : Ptr → Bool) (cs : Cells) : Type 0 where
  pub chain : Chain s null (head_cell ∷ cs)
  pub distinct : Distinct (head_cell ∷ cs)
  pub ascending : Ascending (head_cell ∷ cs)
  pub counted : s.queue_index ≡ pos (length cs)
  pub locks : (k : Ptr) → s.mutexes k ≡ held k
  pub unlocked : Unlocked held (head_cell ∷ cs)

-- The packet in the queue with a number, if there is one.
abbrev pub find : ℤ → Cells → Option Ptr
find n [] = none
find n (c ∷ cs) = if eqb_ℤ n c.num then some c.packet else find n cs

-- A cell put in by its number.
abbrev pub insert : Cell → Cells → Cells
insert c [] = c ∷ []
insert c (d ∷ cs) = if ltb_ℤ c.num d.num then c ∷ d ∷ cs else d ∷ insert c cs

-- A chain is about its own cells only: it survives changes at three other addresses.
pub Chain-frame :
    (s t : Store) (prev p q r : Ptr) (cs : Cells)
    → ((a : Ptr) → a ≢ p → a ≢ q → a ≢ r → t.elements a ≡ s.elements a)
    → ((k : Ptr) → t.packets k ≡ s.packets k)
    → Apart p cs
    → Apart q cs
    → Apart r cs
    → Chain s prev cs
    → Chain t prev cs
Chain-frame s t prev p q r [] f g x y z c = tt
Chain-frame s t prev p q r (c ∷ cs) f g (x, xs) (y, ys) (z, zs) (live, here, num, rest) = (
  live,
  f c.at (λ e. x (sym e)) (λ e. y (sym e)) (λ e. z (sym e)) ∙ here,
  g c.packet ∙ num,
  Chain-frame s t c.at p q r cs f g xs ys zs rest,
)
