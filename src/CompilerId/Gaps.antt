-- ===== src/CompilerId/Gaps.antt =====
-- Which parts of a version the strings of CMakeCCompilerId.c lose.
use ws2425_bs_praktikum.Base.{◌≡◌, Bool, true, false, not, ◌&&◌, ◌||◌, Option, none, some, arith}
use ws2425_bs_praktikum.CompilerId.Macros.{Macros, Component, absent, defined, Version}
use ws2425_bs_praktikum.CompilerId.Branches.{
  Branch, intel, intel_llvm, gnu, msvc, branch, defines, identify,
}

abbrev pub given : Component → Bool
given absent = false
given _ = true

-- A component is there, but not the one before it: the string stops before it.
abbrev pub has_gap : Version → Bool
has_gap v =
    (not (given v.major) && (given v.minor || (given v.patch || given v.tweak)))
    || ((not (given v.minor) && (given v.patch || given v.tweak))
        || (not (given v.patch) && given v.tweak))

abbrev pub is_gnu : Branch → Bool
is_gnu gnu = true
is_gnu _ = false

abbrev pub is_msvc : Branch → Bool
is_msvc msvc = true
is_msvc _ = false

abbrev pub is_intel : Branch → Bool
is_intel intel = true
is_intel intel_llvm = true
is_intel _ = false

abbrev pub is_some : {A : Type 0} → Option A → Bool
is_some none = false
is_some (some _) = true

abbrev gap_at : Branch → Macros → Bool
gap_at b m =
    (is_gnu b && (defined m "__GNUC_PATCHLEVEL__" && not (defined m "__GNUC_MINOR__")))
    || (is_msvc b && (defined m "_MSC_BUILD" && not (defined m "_MSC_FULL_VER")))

has_gap-defines : (b : Branch) (m : Macros) → has_gap (defines b m).components ≡ gap_at b m
unfolding defines
has_gap-defines b m = ground arith

simulate_at : Branch → Macros → Bool
simulate_at b m =
    is_some (defines b m).simulate_id
    || (is_intel b
        && (defined m "__GNUG__" && (not (defined m "__GNUC__") && not (defined m "_MSC_VER"))))

simulate_major-defines :
    (b : Branch) (m : Macros) → given (defines b m).simulate.major ≡ simulate_at b m
unfolding defines simulate_at
simulate_major-defines b m = ground arith

-- For every set of macros: the string of the version stops before a component that is there in two
-- cases only, for GCC with a patch level and no minor version, and for MSVC with _MSC_BUILD and no
-- _MSC_FULL_VER; and a version of a simulated compiler is there exactly if the name of that
-- compiler is, but for Intel's compilers with __GNUG__ and neither __GNUC__ nor _MSC_VER, which
-- give only the version.
version_parts :
    (m : Macros)
    → (has_gap (identify m).components ≡ (
        (is_gnu (branch m) && (defined m "__GNUC_PATCHLEVEL__" && not (defined m "__GNUC_MINOR__")))
        || (is_msvc (branch m) && (defined m "_MSC_BUILD" && not (defined m "_MSC_FULL_VER")))))
      × (given (identify m).simulate.major ≡ (
          is_some (identify m).simulate_id
          || (is_intel (branch m)
              && (defined m "__GNUG__"
                  && (not (defined m "__GNUC__") && not (defined m "_MSC_VER"))))))
unfolding identify simulate_at
version_parts m = (has_gap-defines (branch m) m, simulate_major-defines (branch m) m)
