-- ===== src/PacketQueue/Threads/Enter.antt =====
-- A call of Praktikum 3/queue.c comes in at the head, or get_paket goes on from the first cell,
-- while other calls wait in the queue.
use ws2425_bs_praktikum.Base.{
  ℕ, Bool, true, false, ◌||◌, ◌≡◌, ◌≢◌, refl, ◌∙◌, inl, inr, ◌≤◌, ◌<◌, some, [], ◌∷◌, arith, ◌==◌,
  length,
}
use ws2425_bs_praktikum.Base.Int.{pos, negsuc}
use ws2425_bs_praktikum.PacketQueue.Store.{Ptr, null, element, Store, ok, update}
use ws2425_bs_praktikum.PacketQueue.Operations.{
  queue_head, empty_packet, q_max, queue_full, queue_empty, unlock_unless_null, unlock_at,
}
use ws2425_bs_praktikum.PacketQueue.Cells.{Cell, Cells, head_cell, first_at, ◌<ℤ◌}
use ws2425_bs_praktikum.PacketQueue.Ordered.{add, get}
use ws2425_bs_praktikum.PacketQueue.Threads.Blocks.{
  entering, walking, before_first, returned, answered, add_round, add_enter, get_enter, get_last,
}
use ws2425_bs_praktikum.PacketQueue.Threads.Follows.{Among}
use ws2425_bs_praktikum.PacketQueue.Threads.Put.{same_lock}
use ws2425_bs_praktikum.PacketQueue.Threads.Place.{IsFresh, IsReady, IsLinked, Moves, full, empty}
use ws2425_bs_praktikum.PacketQueue.Threads.Onward.{relocked, stay-Moves, newly}

module _ (held : Ptr → Bool) (k : Ptr) where
  -- One mutex was taken.
  unfoldable pub taken : Ptr → Bool
  taken = update held k true

  pub taken-frame : (j : Ptr) → j ≢ k → taken j ≡ held j
  unfolding taken
  taken-frame j h = ground arith

  pub taken-locks : (p a : Ptr) → (p == k) ≡ (a == k) → taken p ≡ (a == k || held p)
  unfolding taken
  taken-locks p a e = ground arith

  -- It was taken and given back.
  pub touched : Ptr → Bool
  touched = update (update held k true) k false

  touched-same : (j : Ptr) → held k ≡ false → touched j ≡ held j
  unfolding touched
  touched-same j h = ground arith

module _ (s : Store) (first : Ptr) (num : s.packets empty_packet ≡ some (negsuc 0))
    (head : s.elements queue_head ≡ some (element empty_packet first null))
    (free : s.mutexes empty_packet ≡ false) where
  full_runs :
      (fresh packet : Ptr) (n : ℕ)
      → s.queue_index ≡ pos n
      → q_max ≤ n
      → add_enter fresh packet s
        ≡ ok
            (returned (negsuc 0, null))
            (record s { mutexes = touched s.mutexes empty_packet; errno = queue_full })
  unfolding touched add_enter answered
  full_runs fresh packet n i h = ground arith

  enter_runs :
      (new c : Cell) (second prev : Ptr) (n : ℕ)
      → s.queue_index ≡ pos n
      → n < q_max
      → first ≡ c.at
      → c.at ≢ null
      → s.elements c.at ≡ some (element c.packet second prev)
      → s.packets new.packet ≡ some new.num
      → negsuc 0 <ℤ new.num
      → add_enter new.at new.packet s
        ≡ ok (walking queue_head c.packet) (record s { mutexes = taken s.mutexes empty_packet })
  unfolding taken add_enter add_round answered unlock_unless_null
  enter_runs new c second prev n i h e live here new_num above = ground arith

  none_runs :
      first ≡ null
      → get_enter s
        ≡ ok
            (returned (negsuc 0, null))
            (record s { mutexes = touched s.mutexes empty_packet; errno = queue_empty })
  unfolding touched get_enter get_last unlock_at
  none_runs e = ground arith

  some_runs :
      (c : Cell) (second prev : Ptr)
      → first ≡ c.at
      → c.at ≢ null
      → s.elements c.at ≡ some (element c.packet second prev)
      → get_enter s
        ≡ ok (before_first c.packet) (record s { mutexes = taken s.mutexes empty_packet })
  unfolding taken get_enter
  some_runs c second prev e live here = ground arith

module _ (s : Store) (cs : Cells) (linked : IsLinked s cs)
    (free : s.mutexes empty_packet ≡ false) where
  abbrev l : Cells
  l = head_cell ∷ cs

  head_lock : (x : Cell) → Among x l → (x.packet == empty_packet) ≡ (x.at == queue_head)
  head_lock x m = same_lock x head_cell l linked.1 m (inl refl)

  pub full-runs :
      (new : Cell)
      → q_max ≤ length cs
      → add_enter new.at new.packet s
        ≡ ok (returned (negsuc 0, null)) (
            relocked
              (add new)
              entering
              (returned (negsuc 0, null))
              s
              (touched s.mutexes empty_packet)
              queue_full
              cs)
  full-runs new h =
      full_runs s (first_at cs) linked.0.2 linked.0.1 free new.at new.packet (length cs) linked.3 h

  pub full-Moves :
      (new : Cell)
      → q_max ≤ length cs
      → Moves
          (add new)
          entering
          (returned (negsuc 0, null))
          s
          (relocked
            (add new)
            entering
            (returned (negsuc 0, null))
            s
            (touched s.mutexes empty_packet)
            queue_full
            cs)
          cs
          cs
  full-Moves new h =
      stay-Moves (add new) entering (returned (negsuc 0, null)) s (touched s.mutexes empty_packet)
        queue_full cs linked (full h) (λ on n. absurd on) tt
        (λ j o. touched-same s.mutexes empty_packet j free)
        (λ x m. touched-same s.mutexes empty_packet x.packet free) (λ x m o. absurd (cc))

module _ (s : Store) (linked : IsLinked s []) (free : s.mutexes empty_packet ≡ false) where
  pub none-runs :
      get_enter s
      ≡ ok (returned (negsuc 0, null)) (
          relocked get entering
            (returned (negsuc 0, null))
            s
            (touched s.mutexes empty_packet)
            queue_empty
            [])
  none-runs = none_runs s null linked.0.2 linked.0.1 free refl

  pub none-Moves :
      Moves get entering
        (returned (negsuc 0, null))
        s
        (relocked get entering
          (returned (negsuc 0, null))
          s
          (touched s.mutexes empty_packet)
          queue_empty
          [])
        []
        []
  none-Moves =
      stay-Moves get entering (returned (negsuc 0, null)) s (touched s.mutexes empty_packet)
        queue_empty [] linked empty (λ on n. absurd on) tt
        (λ j o. touched-same s.mutexes empty_packet j free)
        (λ x m. touched-same s.mutexes empty_packet x.packet free) (λ x m o. absurd (cc))

module _ (s : Store) (c : Cell) (cs : Cells) (linked : IsLinked s (c ∷ cs))
    (free : s.mutexes empty_packet ≡ false) where
  abbrev pub entered : Store
  entered = record s { mutexes = taken s.mutexes empty_packet }

  pub enter-runs :
      (new : Cell)
      → length (c ∷ cs) < q_max
      → IsFresh new (head_cell ∷ c ∷ cs)
      → IsReady new s
      → add_enter new.at new.packet s ≡ ok (walking queue_head c.packet) entered
  enter-runs new room f ready =
      let (live, here, num, rest) = linked.0.3 in
      enter_runs s c.at linked.0.2 linked.0.1 free new c (first_at cs) queue_head (length (c ∷ cs))
        linked.3 room refl live here ready.0 f.4

  pub enter-Moves :
      (new : Cell)
      → IsFresh new (head_cell ∷ c ∷ cs)
      → IsReady new s
      → Moves (add new) entering (walking queue_head c.packet) s entered (c ∷ cs) (c ∷ cs)
  enter-Moves new f ready =
      stay-Moves (add new) entering (walking queue_head c.packet) s (taken s.mutexes empty_packet)
        s.errno (c ∷ cs) linked refl (λ on n. omega arith)
        (
          (f, (ready.0, taken-frame s.mutexes empty_packet new.packet f.2.0 ∙ ready.1)),
          (head_cell, c, inl (refl, refl), refl, refl, f.4),
        )
        (λ j o. taken-frame s.mutexes empty_packet j o.0)
        (λ x m.
          taken-locks s.mutexes empty_packet x.packet x.at (head_lock s (c ∷ cs) linked free x m))
        (λ x m o. inr (newly s.mutexes x head_cell (head_lock s (c ∷ cs) linked free x m) free o))

  pub some-runs : get_enter s ≡ ok (before_first c.packet) entered
  some-runs =
      let (live, here, num, rest) = linked.0.3 in
      some_runs s c.at linked.0.2 linked.0.1 free c (first_at cs) queue_head refl live here

  pub some-Moves : Moves get entering (before_first c.packet) s entered (c ∷ cs) (c ∷ cs)
  some-Moves =
      stay-Moves get entering (before_first c.packet) s (taken s.mutexes empty_packet) s.errno
        (c ∷ cs) linked refl (λ on n. omega arith) (c, inl (refl, refl), refl)
        (λ j o. taken-frame s.mutexes empty_packet j o.0)
        (λ x m.
          taken-locks s.mutexes empty_packet x.packet x.at (head_lock s (c ∷ cs) linked free x m))
        (λ x m o. inr (newly s.mutexes x head_cell (head_lock s (c ∷ cs) linked free x m) free o))
