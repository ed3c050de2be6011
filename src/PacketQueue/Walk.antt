-- ===== src/PacketQueue/Walk.antt =====
-- The loop of `add_paket` of Praktikum 3/queue.c behind the first element: a thread holds the
-- mutexes of the current element's packet and of the one before it.
use ws2425_bs_praktikum.Base.{
  ℕ, suc, ◌≡◌, ◌≢◌, refl, sym, ◌∙◌, Bool, true, false, ◌||◌, some, [], ◌∷◌, arith, ◌==◌,
}
use ws2425_bs_praktikum.Base.Int.{ℤ, pos, ◌+ℤ◌, ltb_ℤ, eqb_ℤ}
use ws2425_bs_praktikum.PacketQueue.Store.{Ptr, null, element, Store, ok, update}
use ws2425_bs_praktikum.PacketQueue.Operations.{add_loop}
use ws2425_bs_praktikum.PacketQueue.Cells.{
  Cell, Cells, first_at, Chain, Apart, Foreign, Distinct, Unlocked, Chain-frame, insert,
}

-- The element before the current one: its address, its packet and its predecessor.
pub record Before : Type 0 where
  pub at : Ptr
  pub packet : Ptr
  pub prev : Ptr
  pub num : ℤ

-- The walk stands at the cell `c`, with the cells `cs` behind it.
pub record Walk (s : Store) (held : Ptr → Bool) (b : Before) (c : Cell) (cs : Cells) : Type 0 where
  pub live : b.at ≢ null
  pub link : s.elements b.at ≡ some (element b.packet c.at b.prev)
  pub num : s.packets b.packet ≡ some b.num
  pub chain : Chain s b.at (c ∷ cs)
  pub locks : (k : Ptr) → s.mutexes k ≡ (k == b.packet || (k == c.packet || held k))
  pub free : held b.packet ≡ false
  pub unlocked : Unlocked held (c ∷ cs)
  pub apart : Apart b.at (c ∷ cs)
  pub foreign : Foreign b.packet (c ∷ cs)
  pub distinct : Distinct (c ∷ cs)

-- What malloc gave, and the new packet.
pub record Fresh (s : Store) (new : Cell) (b : Before) (cs : Cells) : Type 0 where
  pub live : new.at ≢ null
  pub other : new.at ≢ b.at
  pub apart : Apart new.at cs
  pub num : s.packets new.packet ≡ some new.num

-- The store afterwards, where the new cell was put in behind `b`.
pub record Inserted (s t : Store) (held : Ptr → Bool) (new : Cell) (b : Before) (cs : Cells)
    : Type 0 where
  pub link : t.elements b.at ≡ some (element b.packet (first_at (insert new cs)) b.prev)
  pub chain : Chain t b.at (insert new cs)
  pub frame : (a : Ptr) → a ≢ b.at → a ≢ new.at → Apart a cs → t.elements a ≡ s.elements a
  pub packets : (k : Ptr) → t.packets k ≡ s.packets k
  pub locks : (k : Ptr) → t.mutexes k ≡ held k
  pub index : t.queue_index ≡ s.queue_index +ℤ pos 1
  pub errno : t.errno ≡ s.errno

module _ (s : Store) (held : Ptr → Bool) (new : Cell) (b : Before) (c : Cell) (cs : Cells) where
  pub store_before : Store
  store_before = record s {
    elements =
        update
          (update (update s.elements new.at (some (element new.packet c.at b.at))) b.at
            (some (element b.packet new.at b.prev)))
          c.at (some (element c.packet (first_at cs) new.at));
    mutexes = update (update s.mutexes b.packet false) c.packet false;
    queue_index = s.queue_index +ℤ pos 1;
  }

  pub before_runs :
      (fuel : ℕ)
      → Walk s held b c cs
      → Fresh s new b (c ∷ cs)
      → ltb_ℤ new.num c.num ≡ true
      → add_loop (suc fuel) new.at new.packet c.at s ≡ ok (pos 0) store_before
  unfolding add_loop store_before
  before_runs fuel w f less = ground (arith, w.locks b.packet, w.locks c.packet)

  pub before_Inserted :
      Walk s held b c cs
      → Fresh s new b (c ∷ cs)
      → ltb_ℤ new.num c.num ≡ true
      → Inserted s store_before held new b (c ∷ cs)
  unfolding store_before
  before_Inserted w f less =
      let (live, here, num, rest) = w.chain in
      let tail : Chain store_before c.at cs =
        Chain-frame s store_before c.at b.at new.at c.at cs (λ a x y z. ground arith) (λ k. refl)
          w.apart.1 f.apart.1 w.distinct.0 rest in
      record {
        link = rw less (ground arith);
        chain = rw less (f.live, ground arith, f.num, (live, ground arith, num, tail));
        frame = λ a x y z. ground arith;
        packets = λ k. refl;
        locks = λ k. ground (arith, w.locks k);
        index = refl;
        errno = refl;
      }

-- At the last cell: the mutex of the packet before it is unlocked twice.
module _ (s : Store) (held : Ptr → Bool) (new : Cell) (b : Before) (c : Cell) where
  pub store_behind : Store
  store_behind = record s {
    elements =
        update (update s.elements new.at (some (element new.packet null c.at))) c.at
          (some (element c.packet new.at b.at));
    mutexes = update (update s.mutexes b.packet false) c.packet false;
    queue_index = s.queue_index +ℤ pos 1;
    misuse = suc s.misuse;
  }

  pub behind_runs :
      (fuel : ℕ)
      → Walk s held b c []
      → Fresh s new b (c ∷ [])
      → ltb_ℤ new.num c.num ≡ false
      → eqb_ℤ new.num c.num ≡ false
      → add_loop (suc fuel) new.at new.packet c.at s ≡ ok (pos 0) store_behind
  unfolding add_loop store_behind
  behind_runs fuel w f less same = ground (arith, w.locks b.packet, w.locks c.packet)

  pub behind_Inserted :
      Walk s held b c []
      → Fresh s new b (c ∷ [])
      → ltb_ℤ new.num c.num ≡ false
      → Inserted s store_behind held new b (c ∷ [])
  unfolding store_behind
  behind_Inserted w f less =
      let (live, here, num, rest) = w.chain in
      record {
        link = rw less (ground arith);
        chain = rw less (live, ground arith, num, (f.live, ground arith, f.num, tt));
        frame = λ a x y z. ground arith;
        packets = λ k. refl;
        locks = λ k. ground (arith, w.locks k);
        index = refl;
        errno = refl;
      }

-- From a cell to the next.
module _ (s : Store) (held : Ptr → Bool) (new : Cell) (b : Before) (c d : Cell) (cs : Cells) where
  unfoldable pub store_next : Store
  store_next = record s { mutexes = update (update s.mutexes b.packet false) d.packet true }

  pub next_runs :
      (fuel : ℕ)
      → Walk s held b c (d ∷ cs)
      → Fresh s new b (c ∷ d ∷ cs)
      → ltb_ℤ new.num c.num ≡ false
      → eqb_ℤ new.num c.num ≡ false
      → add_loop (suc fuel) new.at new.packet c.at s
        ≡ add_loop fuel new.at new.packet d.at store_next
  unfolding add_loop store_next
  next_runs fuel w f less same =
      ground (arith, w.locks b.packet, w.locks c.packet, w.locks d.packet)

  unfoldable pub next_before : Before
  next_before = record { at = c.at; packet = c.packet; prev = b.at; num = c.num }

  pub next_Walk : Walk s held b c (d ∷ cs) → Walk store_next held next_before d cs
  unfolding store_next next_before
  next_Walk w =
      let (live, here, num, rest) = w.chain in
      record {
        live = live;
        link = here;
        num = num;
        chain =
            Chain-frame s store_next c.at b.at b.at b.at (d ∷ cs) (λ a x y z. refl) (λ k. refl)
              w.apart.1 w.apart.1 w.apart.1 rest;
        locks = λ k. ground (arith, w.locks k);
        free = w.unlocked.0;
        unlocked = w.unlocked.1;
        apart = w.distinct.0;
        foreign = w.distinct.1;
        distinct = w.distinct.2;
      }

  pub next_Fresh : Fresh s new b (c ∷ d ∷ cs) → Fresh store_next new next_before (d ∷ cs)
  unfolding store_next next_before
  next_Fresh f = record { live = f.live; other = f.apart.0; apart = f.apart.1; num = f.num }

  pub next_Inserted :
      (t : Store)
      → Walk s held b c (d ∷ cs)
      → Fresh s new b (c ∷ d ∷ cs)
      → ltb_ℤ new.num c.num ≡ false
      → Inserted store_next t held new next_before (d ∷ cs)
      → Inserted s t held new b (c ∷ d ∷ cs)
  unfolding store_next next_before
  next_Inserted t w f less i =
      let (live, here, num, rest) = w.chain in
      record {
        link = rw less (i.frame b.at w.apart.0 (λ e. f.other (sym e)) w.apart.1 ∙ w.link);
        chain = rw less (live, i.link, i.packets c.packet ∙ num, i.chain);
        frame = λ a x y z. i.frame a z.0 y z.1;
        packets = i.packets;
        locks = i.locks;
        index = i.index;
        errno = i.errno;
      }
