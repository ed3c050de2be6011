-- ===== src/CompilerId/Macros.antt =====
-- What CMakeCCompilerId.c (cmake-build-debug/CMakeFiles/3.27.8/CompilerIdC in both parts of
-- Praktikum 2) finds out about a compiler: the macros that are predefined, the digits of a version
-- number, and the record of what the file defines by #define.
use Prim.Native.String.{String}
use ws2425_bs_praktikum.Base.{
  ℕ, ◌+◌, ◌/◌, ◌%◌, ◌^◌, Bool, true, false, Option, none, some, List, [], ◌∷◌,
}

-- The macros that the compiler predefines: `number` is the value that #if and an expression read,
-- `none` for a macro that is not defined; `spelling` has the characters of the replacement, for
-- a string literal those between the quotes.
pub record Macros : Type 0 where
  pub number : String → Option ℕ
  pub spelling : String → List ℕ

-- DEC(n): eight decimal digits.
unfoldable pub dec : ℕ → List ℕ
dec n =
    (b'0' + n / 10000000 % 10)
    ∷ (b'0' + n / 1000000 % 10)
    ∷ (b'0' + n / 100000 % 10)
    ∷ (b'0' + n / 10000 % 10)
    ∷ (b'0' + n / 1000 % 10)
    ∷ (b'0' + n / 100 % 10)
    ∷ (b'0' + n / 10 % 10)
    ∷ (b'0' + n % 10)
    ∷ []

-- HEX(n): the eight groups of four bits, each added to '0'.
unfoldable pub hex : ℕ → List ℕ
hex n =
    (b'0' + n / 2 ^ 28 % 16)
    ∷ (b'0' + n / 2 ^ 24 % 16)
    ∷ (b'0' + n / 2 ^ 20 % 16)
    ∷ (b'0' + n / 2 ^ 16 % 16)
    ∷ (b'0' + n / 2 ^ 12 % 16)
    ∷ (b'0' + n / 2 ^ 8 % 16)
    ∷ (b'0' + n / 2 ^ 4 % 16)
    ∷ (b'0' + n % 16)
    ∷ []

-- A macro such as COMPILER_VERSION_MAJOR: not defined, or the characters that DEC or HEX give, or
-- DEC or HEX of a name that is not defined, with which the file does not compile.
pub data Component : Type 0 where
  absent : Component
  chars : List ℕ → Component
  undeclared : Component

abbrev pub defined : Macros → String → Bool
defined m x = elim (m.number x) [ none ↦ false | some _ ↦ true ]

-- In an #if a name that is not defined is 0.
abbrev pub value : Macros → String → ℕ
value m x = elim (m.number x) [ none ↦ 0 | some v ↦ v ]

-- `DEC(f(x))` and `HEX(f(x))`, as they are and under `#if defined(x)`.
abbrev pub dec_of : Macros → String → (ℕ → ℕ) → Component
dec_of m x f = elim (m.number x) [ none ↦ undeclared | some v ↦ chars (dec (f v)) ]

abbrev pub hex_of : Macros → String → (ℕ → ℕ) → Component
hex_of m x f = elim (m.number x) [ none ↦ undeclared | some v ↦ chars (hex (f v)) ]

abbrev pub dec_if : Macros → String → (ℕ → ℕ) → Component
dec_if m x f = elim (m.number x) [ none ↦ absent | some v ↦ chars (dec (f v)) ]

abbrev pub whole : ℕ → ℕ
whole v = v

-- The macros that end in _VERSION_MAJOR, _MINOR, _PATCH and _TWEAK.
pub record Version : Type 0 where
  pub major : Component
  pub minor : Component
  pub patch : Component
  pub tweak : Component

abbrev pub version : (major minor patch tweak : Component) → Version
version major minor patch tweak = record {
  major = major;
  minor = minor;
  patch = patch;
  tweak = tweak;
}

abbrev pub no_version : Version
no_version = version absent absent absent absent

-- What a branch of the file defines: COMPILER_ID, SIMULATE_ID, COMPILER_VERSION, its components,
-- COMPILER_VERSION_INTERNAL, COMPILER_VERSION_INTERNAL_STR and the components of SIMULATE_VERSION.
pub record Compiler : Type 0 where
  pub id : String
  pub simulate_id : Option String
  pub compiler_version : Option (List ℕ)
  pub components : Version
  pub internal : Component
  pub internal_str : Option (List ℕ)
  pub simulate : Version

abbrev pub compiler : String → Version → Compiler
compiler id v = record {
  id = id;
  simulate_id = none;
  compiler_version = none;
  components = v;
  internal = absent;
  internal_str = none;
  simulate = no_version;
}
