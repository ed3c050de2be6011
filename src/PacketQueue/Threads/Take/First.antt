-- ===== src/PacketQueue/Threads/Take/First.antt =====
-- get_paket of Praktikum 3/queue.c goes on to the second cell, and takes the first of several,
-- while other calls wait in the queue.
use ws2425_bs_praktikum.Base.{
  Bool, true, false, not, ◌&&◌, ◌||◌, ◌≡◌, ◌≢◌, refl, sym, inl, inr, none, some, ◌∷◌, arith, ◌==◌,
  Bool-cases,
}
use ws2425_bs_praktikum.Base.Int.{pos, negsuc, ◌-ℤ◌}
use ws2425_bs_praktikum.PacketQueue.Store.{Ptr, null, element, Store, ok, update}
use ws2425_bs_praktikum.PacketQueue.Operations.{queue_head, empty_packet, unlink_first}
use ws2425_bs_praktikum.PacketQueue.Cells.{
  Cell, Cells, head_cell, first_at, Chain, Chain-frame, Apart,
}
use ws2425_bs_praktikum.PacketQueue.Ordered.{get}
use ws2425_bs_praktikum.PacketQueue.Threads.Blocks.{
  before_first, before_second, returned, get_first, get_second, get_last,
}
use ws2425_bs_praktikum.PacketQueue.Threads.Follows.{Among, Apart-Among}
use ws2425_bs_praktikum.PacketQueue.Threads.Put.{same_lock}
use ws2425_bs_praktikum.PacketQueue.Threads.Place.{IsLinked, Moves}
use ws2425_bs_praktikum.PacketQueue.Threads.Onward.{stay-Moves, newly}
use ws2425_bs_praktikum.PacketQueue.Threads.Enter.{taken, taken-frame}
use ws2425_bs_praktikum.PacketQueue.Threads.Take.{take-Moves}

-- The first of several.
module _ (s : Store) (c d : Cell) (next : Ptr) where
  pub store_first : Store
  store_first = record s {
    elements =
        update
          (update (update s.elements queue_head (some (element empty_packet d.at null))) d.at
            (some (element d.packet next queue_head)))
          c.at none;
    mutexes = update (update (update s.mutexes d.packet true) d.packet false) empty_packet false;
    queue_index = s.queue_index -ℤ pos 1;
  }

  first_runs :
      s.elements queue_head ≡ some (element empty_packet c.at null)
      → s.packets empty_packet ≡ some (negsuc 0)
      → c.at ≢ null
      → c.at ≢ queue_head
      → s.elements c.at ≡ some (element c.packet d.at queue_head)
      → s.packets c.packet ≡ some c.num
      → c.packet ≢ empty_packet
      → d.at ≢ null
      → d.at ≢ queue_head
      → c.at ≢ d.at
      → s.elements d.at ≡ some (element d.packet next c.at)
      → s.packets d.packet ≡ some d.num
      → d.packet ≢ empty_packet
      → c.packet ≢ d.packet
      → s.mutexes d.packet ≡ false
      → s.mutexes c.packet ≡ true
      → s.mutexes empty_packet ≡ true
      → get_second d.packet s ≡ ok (returned (pos 0, c.packet)) store_first
  unfolding store_first get_second get_last unlink_first
  first_runs head hn cl ch ce cn ck dl dh cd de dn dk ckd free held_c held = ground arith

  first-head :
      c.at ≢ queue_head
      → d.at ≢ queue_head
      → store_first.elements queue_head ≡ some (element empty_packet d.at null)
  unfolding store_first
  first-head h k = ground arith

  first-at : c.at ≢ d.at → store_first.elements d.at ≡ some (element d.packet next queue_head)
  unfolding store_first
  first-at h = ground arith

  first-others :
      (p : Ptr) → p ≢ queue_head → p ≢ d.at → p ≢ c.at → store_first.elements p ≡ s.elements p
  unfolding store_first
  first-others p x y z = ground arith

  first-frame : (k : Ptr) → k ≢ empty_packet → k ≢ d.packet → store_first.mutexes k ≡ s.mutexes k
  unfolding store_first
  first-frame k x y = ground arith

  first-locks :
      (x : Cell)
      → (x.packet == empty_packet) ≡ (x.at == queue_head)
      → (x.at == c.at) ≡ false
      → s.mutexes d.packet ≡ false
      → store_first.mutexes x.packet
        ≡ (not (x.at == queue_head || x.at == c.at) && s.mutexes x.packet)
  unfolding store_first
  first-locks x e o free = ground arith

Apart-at : (c x : Cell) (r : Cells) → Apart c.at r → Among x r → (x.at == c.at) ≡ false
Apart-at c x r a m = let h = Apart-Among c.at x r a m in ground arith

at_first : (p : Ptr) → (p == queue_head || p == p) ≡ true
at_first p = ground arith

second_locks :
    (mutexes : Ptr → Bool) (c x : Cell)
    → (x.packet == empty_packet) ≡ (x.at == queue_head)
    → (x.packet == c.packet) ≡ (x.at == c.at)
    → mutexes empty_packet ≡ true
    → taken mutexes c.packet x.packet
      ≡ ((x.at == queue_head || x.at == c.at) || (not (x.at == queue_head) && mutexes x.packet))
unfolding taken
second_locks mutexes c x e o held = elim (Bool-cases (x.at == queue_head)) [
  | inl here ↦
      let same : x.packet ≡ empty_packet = ground arith in
      let h : mutexes x.packet ≡ true = rw same held in ground arith
  | inr other ↦ ground arith
]

module _ (s : Store) (c d : Cell) (r : Cells) (linked : IsLinked s (c ∷ d ∷ r))
    (held : s.mutexes empty_packet ≡ true) where
  abbrev l : Cells
  l = head_cell ∷ c ∷ d ∷ r

  head_lock : (x : Cell) → Among x l → (x.packet == empty_packet) ≡ (x.at == queue_head)
  head_lock x m = same_lock x head_cell l linked.1 m (inl refl)

  module _ (free : s.mutexes c.packet ≡ false) where
    abbrev pub store_second : Store
    store_second = record s { mutexes = taken s.mutexes c.packet }

    second_runs :
        s.elements queue_head ≡ some (element empty_packet c.at null)
        → s.elements c.at ≡ some (element c.packet d.at queue_head)
        → s.elements d.at ≡ some (element d.packet (first_at r) c.at)
        → s.packets c.packet ≡ some c.num
        → d.at ≢ null
        → get_first c.packet s ≡ ok (before_second c.at d.packet) store_second
    unfolding taken get_first
    second_runs head ce de cn dl = ground arith

    pub second-runs : get_first c.packet s ≡ ok (before_second c.at d.packet) store_second
    second-runs =
        let (cl, ce, cn, (dl, de, dn, rest)) = linked.0.3 in second_runs linked.0.1 ce de cn dl

    pub second-Moves :
        Moves get
          (before_first c.packet)
          (before_second c.at d.packet)
          s
          store_second
          (c ∷ d ∷ r)
          (c ∷ d ∷ r)
    second-Moves =
        stay-Moves get (before_first c.packet) (before_second c.at d.packet) s
          (taken s.mutexes c.packet) s.errno (c ∷ d ∷ r) linked refl (λ on n. omega arith)
          (c, d, inl (refl, refl), inr (inl (refl, refl)), refl, refl)
          (λ j o. taken-frame s.mutexes c.packet j o.1.0)
          (λ x m.
            second_locks s.mutexes c x (head_lock x m) (same_lock x c l linked.1 m (inr (inl refl)))
              held)
          (λ x m o. elim (Bool-cases (x.at == queue_head)) [
            | inl mine ↦ inl mine
            | inr other ↦
                let here : (x.at == c.at) ≡ true = ground arith in
                inr (newly s.mutexes x c (same_lock x c l linked.1 m (inr (inl refl))) free here)
          ])

  module _ (held_c : s.mutexes c.packet ≡ true) (free : s.mutexes d.packet ≡ false) where
    pub first-runs :
        get_second d.packet s ≡ ok (returned (pos 0, c.packet)) (store_first s c d (first_at r))
    first-runs =
        let (cl, ce, cn, (dl, de, dn, rest)) = linked.0.3 in
        let (a, k, ((ac, _), (kc, _), _)) = linked.1 in
        first_runs s c d (first_at r) linked.0.1 linked.0.2 cl (λ e. a.0 (sym e)) ce cn
          (λ e. k.0 (sym e)) dl (λ e. a.1.0 (sym e)) ac de dn (λ e. k.1.0 (sym e)) kc free held_c
          held

    first-Chain : Chain (store_first s c d (first_at r)) null (head_cell ∷ d ∷ r)
    unfolding store_first
    first-Chain =
        let (cl, ce, cn, (dl, de, dn, rest)) = linked.0.3 in
        let (a, k, (ac, kc, (ad, kd, _))) = linked.1 in
        (
          linked.0.0,
          first-head s c d (first_at r) (λ e. a.0 (sym e)) (λ e. a.1.0 (sym e)),
          linked.0.2,
          (
            dl,
            first-at s c d (first_at r) ac.0,
            dn,
            Chain-frame s (store_first s c d (first_at r)) d.at queue_head d.at c.at r
                (first-others s c d (first_at r)) (λ k. refl) a.1.1 ad ac.1 rest,
          ),
        )

    pub first-Moves :
        Moves get
          (before_second c.at d.packet)
          (returned (pos 0, c.packet))
          s
          (store_first s c d (first_at r))
          (c ∷ d ∷ r)
          (d ∷ r)
    unfolding store_first ◌-ℤ◌
    first-Moves =
        take-Moves (before_second c.at d.packet) s c (d ∷ r) refl (inl (at_first c.at))
          (store_first s c d (first_at r)) linked first-Chain refl (λ k. refl)
          (λ k f. first-frame s c d (first_at r) k f.0 f.1.1.0)
          (λ x m. elim m [
            | inl e ↦ rw e refl
            | inr n ↦
                first-locks s c d (first_at r) x (head_lock x (inr (inr n)))
                  (Apart-at c x (d ∷ r) linked.1.2.0 n) free
          ])
