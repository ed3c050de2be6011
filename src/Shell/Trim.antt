-- ===== src/Shell/Trim.antt =====
-- `trimString` of Praktikum 2 Aufg 1/main.c: it cuts the blanks at the end of the string, no more.
use mathlib.Core.List.{append-nil}
use mathlib.Core.Path.{ap₂, subst}
use ws2425_bs_praktikum.Base.{
  ℕ, suc, ◌+◌, ◌≡◌, ◌≢◌, ◌⊎◌, refl, sym, ap, ◌∙◌, true, false, inl, inr, List, [], ◌∷◌, ◌++◌, arith,
  ◌==◌, get_or, set, length, Bool-cases,
}
use ws2425_bs_praktikum.Base.Text.{c_string}
use ws2425_bs_praktikum.Shell.Text.{strlen, is_blank, trim_loop, trim_string}

-- The array with the bytes `rs` in front of `t`, the last one first.
abbrev front : List ℕ → List ℕ → List ℕ
front [] t = t
front (r ∷ rs) t = front rs (r ∷ t)

abbrev NonZero : List ℕ → Type 0
NonZero [] = Unit
NonZero (c ∷ cs) = (c ≢ 0) × NonZero cs

-- Only spaces and line ends.
abbrev pub Blanks : List ℕ → Type 0
Blanks [] = Unit
Blanks (c ∷ cs) = ((c ≡ 32) ⊎ (c ≡ 10)) × Blanks cs

blank_cases : (c : ℕ) → c ≢ 0 → is_blank c ≡ true → (c ≡ 32) ⊎ (c ≡ 10)
blank_cases c n e = ground arith

plain_cases : (c : ℕ) → is_blank c ≡ false → (c ≢ 32) × (c ≢ 10)
plain_cases c e = (ground arith, ground arith)

get-front : (rs u : List ℕ) (k n : ℕ) → n ≡ length rs + k → get_or (front rs u) n 0 ≡ get_or u k 0
get-front [] u k n e = let e' : n ≡ k = omega arith in rw e'
get-front (r ∷ rs) u k n e = get-front rs (r ∷ u) (suc k) n (omega arith)

set-front :
    (rs u : List ℕ) (k n v : ℕ) → n ≡ length rs + k → set (front rs u) n v ≡ front rs (set u k v)
set-front [] u k n v e = let e' : n ≡ k = omega arith in rw e'
set-front (r ∷ rs) u k n v e = set-front rs (r ∷ u) (suc k) n v (omega arith)

split :
    (str : List ℕ)
    → (rest : List ℕ) × (str ≡ c_string str ++ rest) × (c_string rest ≡ []) × NonZero (c_string str)
split [] = ([], refl, refl, tt)
split (c ∷ cs) = elim (Bool-cases (c == 0)) [
  | inl end ↦ (c ∷ cs, rw end, rw end, rw end tt)
  | inr more ↦
      let (rest, e, z, n) = split cs in (rest, rw more (ap (◌∷◌ c) e), z, rw more (ground arith, n))
]

front-front : (s u t : List ℕ) → front (front s u) t ≡ front u (s ++ t)
front-front [] u t = refl
front-front (c ∷ s) u t = front-front s (c ∷ u) t

c_string-front : (rs t : List ℕ) → NonZero rs → c_string (front rs t) ≡ front rs (c_string t)
c_string-front [] t n = refl
c_string-front (r ∷ rs) t (ne, n) =
    let plain : (r == 0) ≡ false = ground arith in c_string-front rs (r ∷ t) n ∙ rw plain

NonZero-front : (rs t : List ℕ) → NonZero rs → NonZero t → NonZero (front rs t)
NonZero-front [] t m n = n
NonZero-front (r ∷ rs) t (p, m) n = NonZero-front rs (r ∷ t) m (p, n)

length-front : (rs t : List ℕ) → length (front rs t) ≡ length rs + length t
length-front [] t = omega arith
length-front (r ∷ rs) t = omega (arith, length-front rs (r ∷ t))

front-append : (rs t u : List ℕ) → front rs t ++ u ≡ front rs (t ++ u)
front-append [] t u = refl
front-append (r ∷ rs) t u = front-append rs (r ∷ t) u

-- The last byte of a text, or a given one.
abbrev pub last_or : ℕ → List ℕ → ℕ
last_or d [] = d
last_or d (c ∷ cs) = last_or c cs

last-front : (rs t : List ℕ) (d r : ℕ) → last_or d (front rs (r ∷ t)) ≡ last_or r t
last-front [] t d r = refl
last-front (q ∷ rs) t d r = last-front rs (r ∷ t) d q

-- A byte that stands for the end of an empty text.
abbrev pub plain_byte : ℕ
plain_byte = b'a'

-- The string `s` less the spaces and line ends at its end.
pub record IsTrimmed (s trimmed : List ℕ) : Type 0 where
  pub cut : List ℕ
  pub whole : s ≡ trimmed ++ cut
  pub blanks : Blanks cut
  pub plain_end : (last_or plain_byte trimmed ≢ 32) × (last_or plain_byte trimmed ≢ 10)

trim_loop-IsTrimmed :
    (rs t cut : List ℕ)
    → NonZero rs
    → c_string t ≡ []
    → Blanks cut
    → IsTrimmed (front rs cut) (c_string (trim_loop (length rs) (front rs t)))
unfolding trim_loop
trim_loop-IsTrimmed [] t cut n z b = record {
  cut = cut;
  whole = rw z;
  blanks = b;
  plain_end = rw z (ground arith);
}
trim_loop-IsTrimmed (r ∷ rs) t cut (ne, n) z b =
    let seen : get_or (front rs (r ∷ t)) (length rs) 0 ≡ r =
      get-front rs (r ∷ t) 0 (length rs) (omega arith) in
    let cleared : set (front rs (r ∷ t)) (length rs) 0 ≡ front rs (0 ∷ t) =
      set-front rs (r ∷ t) 0 (length rs) 0 (omega arith) in
    elim (Bool-cases (is_blank r)) [
      | inl blank ↦
          rw (seen, blank, trim_loop)
            (rw cleared
              (trim_loop-IsTrimmed rs (0 ∷ t) (r ∷ cut) n refl (blank_cases r ne blank, b)))
      | inr plain ↦
          let kept : c_string (front rs (r ∷ t)) ≡ front rs (r ∷ []) =
            c_string-front (r ∷ rs) t (ne, n) ∙ rw z in
          rw (seen, plain, trim_loop)
            (rw kept (record {
              cut = cut;
              whole = sym (front-append rs (r ∷ []) cut);
              blanks = b;
              plain_end = rw (last-front rs [] plain_byte r) (plain_cases r plain);
            }))
    ]

-- `trimString` on an array: the string in it afterwards is the string before, less the spaces and
-- line ends at its end; what is left is empty or ends in another byte.
pub trim_string-IsTrimmed : (str : List ℕ) → IsTrimmed (c_string str) (c_string (trim_string str))
unfolding trim_string
trim_string-IsTrimmed str =
    let (rest, e, z, n) = split str in
    let s = c_string str in
    let rs = front s [] in
    let array : str ≡ front rs rest = e ∙ sym (front-front s [] rest) in
    let text : front rs [] ≡ s = front-front s [] [] ∙ append-nil s in
    let size : strlen str ≡ length rs = omega (arith, length-front s []) in
    let trimmed = trim_loop-IsTrimmed rs rest [] (NonZero-front s [] n tt) z tt in
    let same : trim_loop (strlen str) str ≡ trim_loop (length rs) (front rs rest) =
      ap₂ trim_loop size array in
    subst (λ o. IsTrimmed s (c_string o)) (sym same)
      (subst (λ w. IsTrimmed w (c_string (trim_loop (length rs) (front rs rest)))) text trimmed)
