-- ===== src/CompilerId/Bounds.antt =====
-- That `main` of CMakeCCompilerId.c reads inside its arrays.
use Prim.Native.String.{String}
use ws2425_bs_praktikum.Base.{
  ℕ, zero, suc, ◌+◌, ◌≤◌, ◌<◌, ◌≡◌, refl, Bool, true, false, Option, none, some, List, [], ◌∷◌,
  ◌++◌, arith, length, length-append, get_elem?, get_or, Bool-cases, inl, inr,
}
use ws2425_bs_praktikum.Base.Text.{codes}
use ws2425_bs_praktikum.CompilerId.Macros.{
  Macros, Component, absent, chars, undeclared, defined, Version,
}
use ws2425_bs_praktikum.CompilerId.Branches.{identify}
use ws2425_bs_praktikum.CompilerId.Platform.{platform_id, architecture_id}
use ws2425_bs_praktikum.CompilerId.Info.{
  collect, parts, exit_of, with_info, info_simulate, info_cray, c_version, extensions, info,
  info_of, info_version, info_version_internal, version_text, arrays, with_array, when, is_given,
  exit_code, require, main,
}

-- Every array has more elements than this.
abbrev pub AllLong : ℕ → List (List ℕ) → Type 0
AllLong n [] = Unit
AllLong n (a ∷ rest) = (n < length a) × AllLong n rest

abbrev Long : ℕ → Option (Option (List ℕ)) → Type 0
Long n (some (some a)) = n < length a
Long n _ = Unit

abbrev Longs : ℕ → Option (List (List ℕ)) → Type 0
Longs n none = Unit
Longs n (some as_read) = AllLong n as_read

info-Long :
    (n : ℕ) (tag : String) (text : List ℕ) → n < length (codes tag) + 8 → n < length (info tag text)
unfolding info
info-Long n tag text h = omega (
  arith,
  length-append (codes "INFO:" ++ codes tag ++ b'[' ∷ text) (b']' ∷ 0 ∷ []),
  length-append (codes "INFO:" ++ codes tag) (b'[' ∷ text),
  length-append (codes "INFO:") (codes tag),
)

with_array-Longs :
    (n : ℕ) (a : Option (Option (List ℕ))) (rest : Option (List (List ℕ)))
    → Long n a
    → Longs n rest
    → Longs n (with_array a rest)
with_array-Longs n none rest h k = tt
with_array-Longs n (some none) rest h k = k
with_array-Longs n (some (some a)) none h k = tt
with_array-Longs n (some (some a)) (some rest) h k = (h, k)

-- The elements at an index, added up.
abbrev pub sum_at : ℕ → List (List ℕ) → ℕ
sum_at n [] = 0
sum_at n (a ∷ rest) = get_or a n 0 + sum_at n rest

get-some : (a : List ℕ) (i : ℕ) → i < length a → get_elem? a i ≡ some (get_or a i 0)
get-some [] i h = absurd (omega arith)
get-some (x ∷ xs) zero h = refl
get-some (x ∷ xs) (suc i) h = get-some xs i (omega arith)

require-total :
    (argc : ℕ) (as_read : List (List ℕ))
    → AllLong argc as_read
    → require argc as_read ≡ exit_code (sum_at argc as_read)
unfolding require
require-total argc [] h = refl
require-total argc (a ∷ rest) (x, xs) = rw (get-some a argc x, require-total argc rest xs) refl

with_info-Long :
    (n : ℕ) (tag : String) (text : Option (List ℕ))
    → n < length (codes tag) + 8
    → Long n (with_info tag text)
unfolding with_info
with_info-Long n tag none h = tt
with_info-Long n tag (some text) h = info-Long n tag text h

info_of-Long :
    (n : ℕ) (tag : String) (major : Component) (v : Version)
    → n < length (codes tag) + 8
    → Long n (info_of tag major v)
unfolding info_of
info_of-Long n tag absent v h = tt
info_of-Long n tag undeclared v h = tt
info_of-Long n tag (chars cs) v h = with_info-Long n tag (version_text cs v) h

info_version-Long :
    (n : ℕ) (whole : Option (List ℕ)) (v : Version) → n ≤ 11 → Long n (info_version whole v)
unfolding info_version
info_version-Long n (some text) v h = info-Long n "compiler_version" text (omega arith)
info_version-Long n none v h = info_of-Long n "compiler_version" v.major v (omega arith)

info_version_internal-Long :
    (n : ℕ) (c : Component) (str : Option (List ℕ)) → n ≤ 11 → Long n (info_version_internal c str)
unfolding info_version_internal
info_version_internal-Long n undeclared str h = tt
info_version_internal-Long n (chars cs) str h =
    info-Long n "compiler_version_internal" cs (omega arith)
info_version_internal-Long n absent none h = tt
info_version_internal-Long n absent (some text) h =
    info-Long n "compiler_version_internal" text (omega arith)

info_simulate-Long : (n : ℕ) (id : Option String) → n ≤ 11 → Long n (info_simulate id)
unfolding info_simulate
info_simulate-Long n none h = tt
info_simulate-Long n (some id) h = info-Long n "simulate" (codes id) (omega arith)

info_cray-Long : (n : ℕ) (b : Bool) → n ≤ 11 → Long n (info_cray b)
unfolding info_cray
info_cray-Long n true h = info-Long n "compiler_wrapper" (codes "CrayPrgEnv") (omega arith)
info_cray-Long n false h = tt

when-Long : (n : ℕ) (b : Bool) (a : Option (Option (List ℕ))) → Long n a → Long n (when b a)
when-Long n true a h = h
when-Long n false none h = tt
when-Long n false (some a) h = tt

abbrev AllParts : ℕ → List (Option (Option (List ℕ))) → Type 0
AllParts n [] = Unit
AllParts n (a ∷ rest) = Long n a × AllParts n rest

collect-Longs :
    (n : ℕ) (ps : List (Option (Option (List ℕ)))) → AllParts n ps → Longs n (collect ps)
unfolding collect
collect-Longs n [] h = tt
collect-Longs n (a ∷ rest) (x, xs) = with_array-Longs n a (collect rest) x (collect-Longs n rest xs)

parts-AllParts : (n : ℕ) (m : Macros) → n ≤ 11 → AllParts n (parts m)
unfolding parts
parts-AllParts n m h =
    let c = identify m in
    let given =
      when-Long n (is_given c.components.major) (info_version c.compiler_version c.components)
        (info_version-Long n c.compiler_version c.components h) in
    let internal =
      when-Long n (is_given c.internal) (info_version_internal c.internal c.internal_str)
        (info_version_internal-Long n c.internal c.internal_str h) in
    let simulated = info_of-Long n "simulate_version" c.simulate.major c.simulate (omega arith) in
    let cray = info_cray-Long n (defined m "__CRAYXT_COMPUTE_LINUX_TARGET") h in
    let std = info-Long n "standard_default" (codes (c_version m)) (omega arith) in
    let ext = info-Long n "extensions_default" (codes (extensions m)) (omega arith) in
    (
      info-Long n "compiler" (codes c.id) (omega arith),
      (
        info-Long n "platform" (codes (platform_id m)) (omega arith),
        (
          info-Long n "arch" (architecture_id m) (omega arith),
          (
            given,
            (
              internal,
              (info_simulate-Long n c.simulate_id h, (simulated, (cray, (std, (ext, tt))))),
            ),
          ),
        ),
      ),
    )

arrays-Longs : (n : ℕ) (m : Macros) → n ≤ 11 → Longs n (arrays m)
unfolding arrays
arrays-Longs n m h = elim (Bool-cases (defined m "__cplusplus")) [
  | inl cpp ↦ rw cpp tt
  | inr plain ↦ rw plain (collect-Longs n (parts m) (parts-AllParts n m h))
]

-- Where the file compiles, with these arrays, and ID_VOID_MAIN is not defined: with at most 11
-- arguments, the program's name counted, every array that main reads has an element at argc, and
-- main returns the sum of these elements.
pub main-in_bounds :
    (m : Macros) (argc : ℕ) (as_read : List (List ℕ))
    → argc ≤ 11
    → arrays m ≡ some as_read
    → defined m "__18CXX" ≡ false
    → AllLong argc as_read × (main m argc ≡ exit_code (sum_at argc as_read))
unfolding main exit_of
main-in_bounds m argc as_read h compiles plain =
    let long : AllLong argc as_read = rw compiles at (arrays-Longs argc m h) in
    (long, rw (plain, compiles) (require-total argc as_read long))
