-- ===== src/PacketQueue/Threads/Alone/Rounds.antt =====
-- A round of the loop of add_paket in Praktikum 3/queue.c, with a lock at its end or without.
use ws2425_bs_praktikum.Base.{
  suc, ◌≡◌, refl, some, false, arith, ◌==◌, if◌then◌else◌, Bool-cases, Option-cases, inl, inr, ◌⊎◌,
}
use ws2425_bs_praktikum.Base.Int.{ℤ, ltb_ℤ, eqb_ℤ}
use ws2425_bs_praktikum.PacketQueue.Store.{
  Ptr, null, Element, Store, ok, blocked, fault, out_of_fuel, Run, Cmd, pure, and_then, ◌>>=◌, ◌>>◌,
  lock, unlock, load_element, load_num, update,
}
use ws2425_bs_praktikum.PacketQueue.Operations.{
  unlock_at, reject, insert_before, append, unlock_unless_null,
}
use ws2425_bs_praktikum.PacketQueue.Threads.Blocks.{Pc, walking, returned, answered, add_round}

-- An unlock leaves the elements alone.
unlock_runs :
    (k : Ptr) (s : Store)
    → (unlock k s ≡ fault) ⊎ ((u : Store) × (unlock k s ≡ ok tt u) × (u.elements ≡ s.elements))
unlock_runs k s = elim (Option-cases (s.packets k)) [
  | inl gone ↦ inl (ground arith)
  | inr (n, here) ↦ elim (Bool-cases (s.mutexes k)) [
    | inl held ↦ inr (record s { mutexes = update s.mutexes k false }, ground arith, refl)
    | inr free ↦ inr (record s { misuse = suc s.misuse }, ground arith, refl)
  ]
]

unlock_unless_null_runs :
    (p : Ptr) (s : Store)
    → (unlock_unless_null p s ≡ fault)
      ⊎ ((u : Store) × (unlock_unless_null p s ≡ ok tt u) × (u.elements ≡ s.elements))
unfolding unlock_unless_null unlock_at
unlock_unless_null_runs p s = elim (Bool-cases (p == null)) [
  | inl nothing ↦ inr (s, ground arith, refl)
  | inr there ↦ elim (Option-cases (s.elements p)) [
    | inl gone ↦ inl (ground arith)
    | inr (e, here) ↦ elim (unlock_runs e.packet s) [
      | inl bad ↦ inl (ground arith)
      | inr (u, runs, kept) ↦ inr (u, ground arith, kept)
    ]
  ]
]

unfoldable pub with_null : Cmd ℤ → Cmd (ℤ × Ptr)
with_null m = m >>= λ code. pure (code, null)

module _ (rest : Ptr → Cmd ℤ) (packet : Ptr) where
  -- The rest of the loop of add_paket, from a lock on.
  unfoldable pub go_on : Pc → Cmd (ℤ × Ptr)
  go_on (walking current next_packet) = do
    lock next_packet
    e ← load_element current
    with_null (rest e.next)
  go_on (returned a) = pure a
  go_on _ = λ _. blocked

  -- A round that ends the call.
  answered-go_on :
      (r : Run ℤ)
      → and_then r (λ code. pure (code, null))
        ≡ and_then (and_then r (λ code. pure (returned (code, null)))) go_on
  unfolding go_on
  answered-go_on (ok code t) = refl
  answered-go_on blocked = refl
  answered-go_on fault = refl
  answered-go_on out_of_fuel = refl

  module _ (fresh current : Ptr) (e : Element) where
    -- The end of a round that goes on to the next packet.
    end_of_round :
        (u : Store)
        → u.elements current ≡ some e
        → and_then
            ((if e.next == null
                then append fresh packet current e.prev
                else (do n ← load_element e.next; lock n.packet; rest e.next))
              u)
            (λ code. pure (code, null))
          ≡ and_then
              ((if e.next == null
                  then answered (append fresh packet current e.prev)
                  else (do n ← load_element e.next; pure (walking current n.packet)))
                u)
              go_on
    unfolding answered go_on with_null
    end_of_round u here = elim (Bool-cases (e.next == null)) [
      | inl last ↦ rw last (answered-go_on (append fresh packet current e.prev u))
      | inr more ↦ rw more (ground (arith))
    ]

  -- One round of the loop.
  unfoldable pub loop_body : (fresh current : Ptr) → Cmd ℤ
  loop_body fresh current = do
    num ← load_num packet
    e ← load_element current
    current_num ← load_num e.packet
    if eqb_ℤ num current_num
        then reject packet e.prev
        else if ltb_ℤ num current_num
        then insert_before fresh packet current e.prev
        else (do
          unlock_unless_null e.prev
          if e.next == null
              then append fresh packet current e.prev
              else (do n ← load_element e.next; lock n.packet; rest e.next))

  pub loop_body-round :
      (fresh current : Ptr) (s : Store)
      → with_null (loop_body fresh current) s ≡ and_then (add_round fresh packet current s) go_on
  unfolding with_null loop_body add_round answered
  loop_body-round fresh current s = elim (Option-cases (s.packets packet)) [
    | inl gone ↦ ground arith
    | inr (num, a) ↦ elim (Option-cases (s.elements current)) [
      | inl gone ↦ ground arith
      | inr (e, b) ↦ elim (Option-cases (s.packets e.packet)) [
        | inl gone ↦ ground arith
        | inr (current_num, c) ↦ elim (Bool-cases (eqb_ℤ num current_num)) [
          | inl same ↦ ground (arith, answered-go_on (reject packet e.prev s))
          | inr other ↦ elim (Bool-cases (ltb_ℤ num current_num)) [
            | inl less ↦
                ground (arith, answered-go_on (insert_before fresh packet current e.prev s))
            | inr more ↦ elim (unlock_unless_null_runs e.prev s) [
              | inl bad ↦ ground arith
              | inr (u, runs, kept) ↦ ground (arith, end_of_round fresh current e u)
            ]
          ]
        ]
      ]
    ]
  ]

pub answer-ok :
    (r : Run ℤ) (a : ℤ × Ptr) (t : Store)
    → and_then r (λ code. pure (code, null)) ≡ ok a t
    → (code : ℤ) × (r ≡ ok code t) × (a ≡ (code, null))
answer-ok (ok code u) a t e = (code, cc, cc)
answer-ok blocked a t e = absurd (cc)
answer-ok fault a t e = absurd (cc)
answer-ok out_of_fuel a t e = absurd (cc)

pub and_then-ok :
    {A B : Type 0} (r : Run A) (g h : A → Cmd B) (b : B) (t : Store)
    → ((a : A) (u : Store) → g a u ≡ ok b t → h a u ≡ ok b t)
    → and_then r g ≡ ok b t
    → and_then r h ≡ ok b t
and_then-ok (ok a u) g h b t to e = to a u e
and_then-ok blocked g h b t to e = absurd (cc)
and_then-ok fault g h b t to e = absurd (cc)
and_then-ok out_of_fuel g h b t to e = absurd (cc)
