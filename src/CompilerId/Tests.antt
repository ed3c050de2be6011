-- ===== src/CompilerId/Tests.antt =====
-- The theorems about CMakeCCompilerId.c for GCC 13.2 under Cygwin.
use text.Mathlib.Text.{◌==◌}
use ws2425_bs_praktikum.Base.{ℕ, ◌≡◌, refl, none, some, List, [], ◌∷◌, ◌++◌, arith, if◌then◌else◌}
use ws2425_bs_praktikum.Base.Text.{codes}
use ws2425_bs_praktikum.CompilerId.Macros.{Macros}
use ws2425_bs_praktikum.CompilerId.Branches.{gnu, branch, identify}
use ws2425_bs_praktikum.CompilerId.Platform.{platform_id}
use ws2425_bs_praktikum.CompilerId.Info.{info_version, exit_code, arrays, main}
use ws2425_bs_praktikum.CompilerId.Digits.{read_fields, read-info_version}
use ws2425_bs_praktikum.CompilerId.Bounds.{AllLong, sum_at, main-in_bounds}

abbrev gcc : Macros
gcc = record {
  number = λ x.
      if x == "__GNUC__"
      then some 13
      else if x == "__GNUC_MINOR__"
      then some 2
      else if x == "__GNUC_PATCHLEVEL__"
      then some 0
      else if x == "__CYGWIN__"
      then some 1
      else if x == "__STDC__"
      then some 1
      else if x == "__STDC_VERSION__"
      then some 201710
      else none;
  spelling = λ _. [];
}

gcc-branch : branch gcc ≡ gnu
unfolding branch
gcc-branch = refl

platform_of_gcc : platform_id gcc ≡ "Cygwin"
unfolding platform_id
platform_of_gcc = refl

read-info_version_example :
    (rest : List ℕ) × (info_version (identify gcc).compiler_version (identify gcc).components
      ≡ some (some (codes "INFO:compiler_version[" ++ rest)))
    × (read_fields 0 rest ≡ 13 ∷ 2 ∷ 0 ∷ [])
read-info_version_example =
    read-info_version gcc 13 2 0 gcc-branch refl refl refl (omega arith) (omega arith) (omega arith)

abbrev gcc_arrays : List (List ℕ)
gcc_arrays = elim (arrays gcc) [ none ↦ [] | some as_read ↦ as_read ]

gcc_arrays_lem : arrays gcc ≡ some gcc_arrays
unfolding arrays identify
gcc_arrays_lem = refl

main-in_bounds_example : AllLong 1 gcc_arrays × (main gcc 1 ≡ exit_code (sum_at 1 gcc_arrays))
main-in_bounds_example = main-in_bounds gcc 1 gcc_arrays (omega arith) gcc_arrays_lem refl
