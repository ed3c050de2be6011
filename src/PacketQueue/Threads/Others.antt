-- ===== src/PacketQueue/Threads/Others.antt =====
-- What a move of one call of Praktikum 3/queue.c leaves the others to do.
use ws2425_bs_praktikum.Base.{
  ℕ, suc, ◌+◌, ◌≤◌, ◌<◌, ◌≡◌, ◌≢◌, refl, sym, ◌∙◌, inl, inr, [], ◌∷◌, arith, ◌==◌, Bool-cases,
}
use ws2425_bs_praktikum.Base.Int.{ℤ}
use ws2425_bs_praktikum.PacketQueue.Store.{Ptr, Store}
use ws2425_bs_praktikum.PacketQueue.Operations.{queue_head}
use ws2425_bs_praktikum.PacketQueue.Cells.{Cell, Cells, head_cell, insert}
use ws2425_bs_praktikum.PacketQueue.Insert.{length-insert}
use ws2425_bs_praktikum.PacketQueue.Ordered.{Call, add, get}
use ws2425_bs_praktikum.PacketQueue.Threads.Blocks.{
  Pc, entering, walking, before_first, before_second, returned,
}
use ws2425_bs_praktikum.PacketQueue.Threads.Follows.{Follows-left, Apart-Among}
use ws2425_bs_praktikum.PacketQueue.Threads.Measure.{
  IsRunning, behind, todo, behind-insert, behind-drop,
}
use ws2425_bs_praktikum.PacketQueue.Threads.Place.{
  Place, IsFresh, Answers, put, full, took, empty, Told,
}

-- A call of add_paket that has not returned.
abbrev pub counts : Call → Pc → ℕ
counts get p = 0
counts (add new) (returned a) = 0
counts (add new) p = 1

behind_put :
    (p : Ptr) (new : Cell) (cs : Cells)
    → p ≢ new.at
    → behind p (head_cell ∷ insert new cs) ≤ suc (behind p (head_cell ∷ cs))
behind_put p new cs h = elim (Bool-cases (p == queue_head)) [
  | inl here ↦ rw here (omega (arith, length-insert new cs))
  | inr other ↦ rw other (behind-insert p new cs h)
]

pub fewer : (a b : ℕ) (cs : Cells) (q : Pc) → a ≤ b → todo a cs q ≤ todo b cs q
fewer a b cs entering h = omega arith
fewer a b cs (walking c k) h = omega arith
fewer a b cs (before_first k) h = omega arith
fewer a b cs (before_second f k) h = omega arith
fewer a b cs (returned r) h = omega arith

-- One more cell, with one call fewer that brings one.
todo-put :
    (a b : ℕ) (new : Cell) (cs : Cells) (s : Store) (c : Call) (q : Pc)
    → IsFresh new (head_cell ∷ cs)
    → Place c q (head_cell ∷ cs) s
    → a < b
    → todo a (insert new cs) q ≤ todo b cs q
todo-put a b new cs s c entering f place h = omega (arith, length-insert new cs)
todo-put a b new cs s (add other) (walking current k) f (_, (x, y, g, e, _, _)) h =
    let ne : current ≢ new.at = λ same.
      Apart-Among new.at x (head_cell ∷ cs) f.1 (Follows-left x y (head_cell ∷ cs) g)
        (sym (e ∙ same)) in
    omega (arith, behind_put current new cs ne)
todo-put a b new cs s get (walking current k) f place h = absurd place
todo-put a b new cs s c (before_first k) f place h = omega arith
todo-put a b new cs s c (before_second g k) f place h = omega arith
todo-put a b new cs s c (returned r) f place h = omega arith

-- One cell fewer.
todo-took : (a b : ℕ) (c : Cell) (cs : Cells) (q : Pc) → a ≤ b → todo a cs q ≤ todo b (c ∷ cs) q
todo-took a b c cs entering h = omega arith
todo-took a b c cs (walking p k) h = omega (arith, behind-drop p head_cell c cs)
todo-took a b c cs (before_first k) h = omega arith
todo-took a b c cs (before_second f k) h = omega arith
todo-took a b c cs (returned r) h = omega arith

running-IsFresh :
    (new : Cell) (p : Pc) (l : Cells) (s : Store)
    → IsRunning p
    → Place (add new) p l s
    → IsFresh new l
running-IsFresh new entering l s on (f, _) = f
running-IsFresh new (walking c k) l s on ((f, _), _) = f
running-IsFresh new (before_first k) l s on place = absurd place
running-IsFresh new (before_second f k) l s on place = absurd place
running-IsFresh new (returned a) l s on place = absurd on

counts-add : (new : Cell) (p : Pc) → IsRunning p → counts (add new) p ≡ 1
counts-add new entering on = refl
counts-add new (walking c k) on = refl
counts-add new (before_first k) on = refl
counts-add new (before_second f k) on = refl
counts-add new (returned a) on = absurd on

pub counts-same : (c : Call) (p q : Pc) → IsRunning p → IsRunning q → counts c p ≡ counts c q
counts-same (add new) p q on on' = counts-add new p on ∙ sym (counts-add new q on')
counts-same get p q on on' = refl

pub counts-le : (c : Call) (p : Pc) → counts c p ≤ 1
counts-le get p = omega arith
counts-le (add new) entering = omega arith
counts-le (add new) (walking c k) = omega arith
counts-le (add new) (before_first k) = omega arith
counts-le (add new) (before_second f k) = omega arith
counts-le (add new) (returned a) = omega arith

counts-returned : (c : Call) (a : ℤ × Ptr) → counts c (returned a) ≡ 0
counts-returned (add new) a = refl
counts-returned get a = refl

Answers-todo :
    (c : Call) (p : Pc) (xs ys : Cells) (code : ℤ) (packet : Ptr) (s : Store) (other : Call)
    (q : Pc) (a b : ℕ)
    → Answers c xs (code, packet) ys
    → IsRunning p
    → Place c p (head_cell ∷ xs) s
    → Place other q (head_cell ∷ xs) s
    → counts c p + a ≤ b
    → todo a ys q ≤ todo b xs q
Answers-todo _ p xs _ _ _ s other q a b (put {new = new}) on mine place h =
    todo-put a b new xs s other q (running-IsFresh new p (head_cell ∷ xs) s on mine) place
      (let e = counts-add new p on in omega arith)
Answers-todo _ p xs _ _ _ s other q a b (full more) on mine place h = fewer a b xs q (omega arith)
Answers-todo _ p _ ys _ _ s other q a b (took {c = c}) on mine place h =
    todo-took a b c ys q (omega arith)
Answers-todo _ p _ _ _ _ s other q a b empty on mine place h = fewer a b [] q (omega arith)

module _ (c : Call) (p : Pc) (xs ys : Cells) (s : Store) (other : Call) (q : Pc) (a b : ℕ)
    (on : IsRunning p) (mine : Place c p (head_cell ∷ xs) s)
    (place : Place other q (head_cell ∷ xs) s) where
  kept-todo :
      (p' : Pc)
      → IsRunning p'
      → ys ≡ xs
      → counts c p + a ≤ b + counts c p'
      → todo a ys q ≤ todo b xs q
  kept-todo p' on' e h = let same = counts-same c p p' on on' in rw e (fewer a b xs q (omega arith))

  pub Told-todo :
      (p' : Pc) → Told c xs p' ys → counts c p + a ≤ b + counts c p' → todo a ys q ≤ todo b xs q
  Told-todo entering e h = kept-todo entering tt e h
  Told-todo (walking r k) e h = kept-todo (walking r k) tt e h
  Told-todo (before_first k) e h = kept-todo (before_first k) tt e h
  Told-todo (before_second f k) e h = kept-todo (before_second f k) tt e h
  Told-todo (returned (code, packet)) told h =
      let none = counts-returned c (code, packet) in
      Answers-todo c p xs ys code packet s other q a b told on mine place (omega arith)
