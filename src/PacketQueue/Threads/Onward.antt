-- ===== src/PacketQueue/Threads/Onward.antt =====
-- A call of Praktikum 3/queue.c that takes or gives back mutexes and leaves the elements alone,
-- while other calls wait in the queue.
use ws2425_bs_praktikum.Base.{
  ◌<◌, ℕ, Bool, true, false, not, ◌&&◌, ◌||◌, ◌≡◌, ◌≢◌, refl, ◌∙◌, ◌⊎◌, inl, inr, some, [], ◌∷◌,
  arith, ◌==◌,
}
use ws2425_bs_praktikum.Base.Int.{ℤ, ltb_ℤ, eqb_ℤ}
use ws2425_bs_praktikum.PacketQueue.Store.{Ptr, null, element, Store, ok, update}
use ws2425_bs_praktikum.PacketQueue.Operations.{unlock_unless_null}
use ws2425_bs_praktikum.PacketQueue.Cells.{Cell, Cells, head_cell, Chain, Foreign, ◌<ℤ◌}
use ws2425_bs_praktikum.PacketQueue.Ordered.{Call, add}
use ws2425_bs_praktikum.PacketQueue.Threads.Blocks.{Pc, walking, answered, add_round, add_next}
use ws2425_bs_praktikum.PacketQueue.Threads.Follows.{
  Among, Follows, Follows-left, Follows-right, Foreign-Among,
}
use ws2425_bs_praktikum.PacketQueue.Threads.Measure.{IsRunning, todo, behind-Follows}
use ws2425_bs_praktikum.PacketQueue.Threads.Links.{Links}
use ws2425_bs_praktikum.PacketQueue.Threads.Put.{same_lock}
use ws2425_bs_praktikum.PacketQueue.Threads.Place.{
  owns, IsFresh, IsReady, Place, Told, IsLinked, Moves,
}
use ws2425_bs_praktikum.PacketQueue.Threads.Between.{other_key}

Chain-same :
    (s t : Store) (prev : Ptr) (l : Cells)
    → ((p : Ptr) → t.elements p ≡ s.elements p)
    → ((k : Ptr) → t.packets k ≡ s.packets k)
    → Chain s prev l
    → Chain t prev l
Chain-same s t prev [] e p c = tt
Chain-same s t prev (x ∷ xs) e p (live, here, num, rest) =
    (live, e x.at ∙ here, p x.packet ∙ num, Chain-same s t x.at xs e p rest)

-- The same memory but for mutexes and errno.
module _ (c : Call) (p p' : Pc) (s : Store) (mutexes : Ptr → Bool) (errno : ℕ) (cs : Cells) where
  abbrev pub relocked : Store
  relocked = record s { mutexes = mutexes; errno = errno }

  pub stay-Moves :
      IsLinked s cs
      → Told c cs p' cs
      → (IsRunning p' → (adders : ℕ) → todo adders cs p' < todo adders cs p)
      → Place c p' (head_cell ∷ cs) relocked
      → ((k : Ptr) → Foreign k (head_cell ∷ cs) → mutexes k ≡ s.mutexes k)
      → ((x : Cell)
          → Among x (head_cell ∷ cs)
          → mutexes x.packet ≡ (owns p' x.at || (not (owns p x.at) && s.mutexes x.packet)))
      → ((x : Cell)
          → Among x (head_cell ∷ cs)
          → owns p' x.at ≡ true
          → (owns p x.at ≡ true) ⊎ (s.mutexes x.packet ≡ false))
      → Moves c p p' s relocked cs cs
  stay-Moves (chain, distinct, ascending, counted) told onward place frame locks gained = record {
    linked = (
      Chain-same s relocked null (head_cell ∷ cs) (λ p. refl) (λ k. refl) chain,
      distinct,
      ascending,
      counted,
    );
    told = told;
    onward = onward;
    packets = λ k. refl;
    place = place;
    among = λ x m. inl m;
    fresh = λ new d f. f;
    frame = frame;
    follows = λ a b f o h. f;
    locks = λ x m n. locks x m;
    gained = gained;
  }

-- From the mutex of `a` to that of `b`, and on to that of `e`.
module _ (s : Store) (new a b e : Cell) where
  pub passed : Ptr → Bool
  passed = update (update s.mutexes b.packet true) a.packet false

  walk_runs :
      (prev next : Ptr)
      → s.elements a.at ≡ some (element a.packet b.at prev)
      → s.elements b.at ≡ some (element b.packet e.at a.at)
      → s.elements e.at ≡ some (element e.packet next b.at)
      → s.packets a.packet ≡ some a.num
      → s.packets b.packet ≡ some b.num
      → a.at ≢ null
      → b.at ≢ null
      → e.at ≢ null
      → (b.packet == a.packet) ≡ false
      → s.packets new.packet ≡ some new.num
      → s.mutexes a.packet ≡ true
      → s.mutexes b.packet ≡ false
      → eqb_ℤ new.num b.num ≡ false
      → ltb_ℤ new.num b.num ≡ false
      → add_next new.at new.packet a.at b.packet s
        ≡ ok (walking b.at e.packet) (record s { mutexes = passed })
  unfolding passed add_next add_round answered unlock_unless_null
  walk_runs prev next ea eb ee na nb la lb le op nn held free other less = ground arith

  passed-frame : (k : Ptr) → k ≢ a.packet → k ≢ b.packet → passed k ≡ s.mutexes k
  unfolding passed
  passed-frame k x y = ground arith

  passed-locks :
      (x : Cell)
      → (x.packet == a.packet) ≡ (x.at == a.at)
      → (x.packet == b.packet) ≡ (x.at == b.at)
      → (b.packet == a.packet) ≡ false
      → passed x.packet ≡ ((x.at == b.at) || (not (x.at == a.at) && s.mutexes x.packet))
  unfolding passed
  passed-locks x p q o = ground arith

pub newly :
    (held : Ptr → Bool) (x b : Cell)
    → (x.packet == b.packet) ≡ (x.at == b.at)
    → held b.packet ≡ false
    → (x.at == b.at) ≡ true
    → held x.packet ≡ false
newly held x b e free h = let same : x.packet ≡ b.packet = ground arith in rw same free

above_next : (a b : ℤ) → eqb_ℤ a b ≡ false → ltb_ℤ a b ≡ false → b <ℤ a
above_next a b e h = ground arith

module _ (s : Store) (new a b e : Cell) (cs : Cells) (linked : IsLinked s cs)
    (f : IsFresh new (head_cell ∷ cs)) (ready : IsReady new s) (g : Follows a b (head_cell ∷ cs))
    (held : s.mutexes a.packet ≡ true) (free : s.mutexes b.packet ≡ false)
    (k : Links s a b (head_cell ∷ cs)) (h : Follows b e (head_cell ∷ cs)) (next : k.next ≡ e.at)
    (live : e.at ≢ null) (m : Ptr) (there : s.elements e.at ≡ some (element e.packet m b.at))
    (other : eqb_ℤ new.num b.num ≡ false) (less : ltb_ℤ new.num b.num ≡ false) where
  abbrev l : Cells
  l = head_cell ∷ cs

  in_a : Among a l
  in_a = Follows-left a b l g

  in_b : Among b l
  in_b = Follows-right a b l g

  other_packet : (b.packet == a.packet) ≡ false
  other_packet = other_key s.mutexes a.packet b.packet held free

  abbrev pub store_on : Store
  store_on = record s { mutexes = passed s new a b e }

  pub walk-runs : add_next new.at new.packet a.at b.packet s ≡ ok (walking b.at e.packet) store_on
  walk-runs =
      walk_runs s new a b e k.prev m k.left (rw next at k.right) there k.left_num k.right_num k.live
        k.right_live live other_packet ready.0 held free other less

  pub walk-Moves : Moves (add new) (walking a.at b.packet) (walking b.at e.packet) s store_on cs cs
  walk-Moves =
      stay-Moves (add new) (walking a.at b.packet) (walking b.at e.packet) s (passed s new a b e)
        s.errno cs linked refl
        (λ on n.
          let less = behind-Follows b e l linked.1 h in
          let nearer = behind-Follows a b l linked.1 g in omega arith)
        (
          (
            f,
            (
              ready.0,
              passed-frame s new a b e new.packet (Foreign-Among new.packet a l f.2 in_a)
                    (Foreign-Among new.packet b l f.2 in_b)
                  ∙ ready.1,
            ),
          ),
          (b, e, h, refl, refl, above_next new.num b.num other less),
        )
        (λ j o.
          passed-frame s new a b e j (Foreign-Among j a l o in_a) (Foreign-Among j b l o in_b))
        (λ x n.
          passed-locks s new a b e x (same_lock x a l linked.1 n in_a)
            (same_lock x b l linked.1 n in_b) other_packet)
        (λ x n o. inr (newly s.mutexes x b (same_lock x b l linked.1 n in_b) free o))
