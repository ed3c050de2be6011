-- ===== src/CompilerId/Late.antt =====
-- The branches of CMakeCCompilerId.c from NVHPC to SDCC: what each defines.
use Prim.Native.String.{String}
use ws2425_bs_praktikum.Base.{
  ◌-◌, ◌*◌, ◌/◌, ◌%◌, ◌^◌, Bool, not, ◌&&◌, ◌||◌, none, some, if◌then◌else◌, leb,
}
use ws2425_bs_praktikum.CompilerId.Macros.{
  Macros, Component, absent, defined, value, dec_of, dec_if, whole, Version, version, no_version,
  Compiler, compiler,
}

unfoldable pub nvhpc : Macros → Compiler
nvhpc m = compiler "NVHPC" (
    version (dec_of m "__NVCOMPILER_MAJOR__" whole) (dec_of m "__NVCOMPILER_MINOR__" whole)
      (dec_if m "__NVCOMPILER_PATCHLEVEL__" whole) absent)

unfoldable pub pgi : Macros → Compiler
pgi m = compiler "PGI" (
    version (dec_of m "__PGIC__" whole) (dec_of m "__PGIC_MINOR__" whole)
      (dec_if m "__PGIC_PATCHLEVEL__" whole) absent)

unfoldable pub cray : Macros → Compiler
cray m =
    compiler "Cray"
      (version (dec_of m "_RELEASE_MAJOR" whole) (dec_of m "_RELEASE_MINOR" whole) absent absent)

unfoldable pub ti : Macros → Compiler
ti m =
    let x : String = "__TI_COMPILER_VERSION__" in
    compiler "TI" (
      version (dec_of m x (λ v. v / 1000000)) (dec_of m x (λ v. v / 1000 % 1000))
        (dec_of m x (λ v. v % 1000)) absent)

abbrev fcc_version : Macros → Version
fcc_version m =
    version (dec_of m "__FCC_major__" whole) (dec_of m "__FCC_minor__" whole)
      (dec_of m "__FCC_patchlevel__" whole) absent

unfoldable pub fujitsu_clang : Macros → Compiler
fujitsu_clang m = record (compiler "FujitsuClang" (fcc_version m)) {
  internal_str = some (m.spelling "__clang_version__");
}

unfoldable pub fujitsu : Macros → Compiler
fujitsu m =
    record (compiler "Fujitsu" (
      if not (defined m "__FCC_version__") && defined m "__FCC_major__"
      then fcc_version m
      else no_version)) {
        compiler_version =
            if defined m "__FCC_version__" then some (m.spelling "__FCC_version__") else none;
        internal =
            if defined m "__fcc_version"
            then dec_of m "__fcc_version" whole
            else dec_if m "__FCC_VERSION" whole;
      }

unfoldable pub ghs : Macros → Compiler
ghs m =
    let x : String = "__GHS_VERSION_NUMBER" in
    compiler "GHS" (
      version (dec_if m x (λ v. v / 100)) (dec_if m x (λ v. v / 10 % 10)) (dec_if m x (λ v. v % 10))
        absent)

unfoldable pub tasking : Macros → Compiler
tasking m =
    let x : String = "__VERSION__" in
    record (compiler "Tasking"
      (version (dec_of m x (λ v. v / 1000)) (dec_of m x (λ v. v % 100)) absent absent)) {
        internal = dec_of m x whole;
      }

unfoldable pub armcc : Macros → Compiler
armcc m =
    let x : String = "__ARMCC_VERSION" in
    compiler "ARMCC" (
      if leb 1000000 (value m x)
      then version (dec_of m x (λ v. v / 1000000)) (dec_of m x (λ v. v / 10000 % 100))
          (dec_of m x (λ v. v % 10000)) absent
      else version (dec_of m x (λ v. v / 100000)) (dec_of m x (λ v. v / 10000 % 10))
          (dec_of m x (λ v. v % 10000)) absent)

-- SIMULATE_ID and SIMULATE_VERSION of AppleClang and Clang.
abbrev clang_simulates : Macros → Compiler → Compiler
clang_simulates m c = record c {
  simulate_id = if defined m "_MSC_VER" then some "MSVC" else none;
  simulate =
      version (dec_if m "_MSC_VER" (λ v. v / 100)) (dec_if m "_MSC_VER" (λ v. v % 100)) absent
        absent;
}

abbrev clang_version : Macros → Component → Version
clang_version m tweak =
    version (dec_of m "__clang_major__" whole) (dec_of m "__clang_minor__" whole)
      (dec_of m "__clang_patchlevel__" whole) tweak

unfoldable pub apple_clang : Macros → Compiler
apple_clang m =
    clang_simulates m
      (compiler "AppleClang" (clang_version m (dec_of m "__apple_build_version__" whole)))

unfoldable pub arm_clang : Macros → Compiler
arm_clang m =
    let x : String = "__ARMCOMPILER_VERSION" in
    record (compiler "ARMClang" (
      version (dec_of m x (λ v. v / 1000000)) (dec_of m x (λ v. v / 10000 % 100))
        (dec_of m x (λ v. v / 100 % 100)) absent)) { internal = dec_of m x whole }

unfoldable pub clang : Macros → Compiler
clang m = clang_simulates m (compiler "Clang" (clang_version m absent))

unfoldable pub lcc : Macros → Compiler
lcc m =
    let base = compiler "LCC" (
      version (dec_of m "__LCC__" (λ v. v / 100)) (dec_of m "__LCC__" (λ v. v % 100))
        (dec_if m "__LCC_MINOR__" whole) absent) in
    if defined m "__GNUC__" && defined m "__GNUC_MINOR__"
    then record base {
      simulate_id = some "GNU";
      simulate =
          version (dec_of m "__GNUC__" whole) (dec_of m "__GNUC_MINOR__" whole)
            (dec_if m "__GNUC_PATCHLEVEL__" whole) absent;
    }
    else base

unfoldable pub gnu : Macros → Compiler
gnu m = compiler "GNU" (
    version (dec_of m "__GNUC__" whole) (dec_if m "__GNUC_MINOR__" whole)
      (dec_if m "__GNUC_PATCHLEVEL__" whole) absent)

unfoldable pub msvc : Macros → Compiler
msvc m = compiler "MSVC" (
    version (dec_of m "_MSC_VER" (λ v. v / 100)) (dec_of m "_MSC_VER" (λ v. v % 100))
      (if leb 1400 (value m "_MSC_VER")
        then dec_if m "_MSC_FULL_VER" (λ v. v % 100000)
        else dec_if m "_MSC_FULL_VER" (λ v. v % 10000))
      (dec_if m "_MSC_BUILD" whole))

unfoldable pub adsp : Macros → Compiler
adsp m =
    let x : String = "__VERSIONNUM__" in
    compiler "ADSP" (
      version (dec_if m x (λ v. v / 2 ^ 24 % 256)) (dec_if m x (λ v. v / 2 ^ 16 % 256))
        (dec_if m x (λ v. v / 2 ^ 8 % 256)) (dec_if m x (λ v. v % 256)))

-- The processors whose __VER__ has three digits.
abbrev small_iar : Macros → Bool
small_iar m =
    defined m "__ICCAVR__"
    || (defined m "__ICCRX__"
        || (defined m "__ICCRH850__"
            || (defined m "__ICCRL78__"
                || (defined m "__ICC430__"
                    || (defined m "__ICCRISCV__"
                        || (defined m "__ICCV850__"
                            || (defined m "__ICC8051__" || defined m "__ICCSTM8__")))))))

unfoldable pub iar : Macros → Compiler
iar m =
    let x : String = "__VER__" in
    let internal_of = λ (v : Version). record (compiler "IAR" v) {
      internal = dec_of m "__IAR_SYSTEMS_ICC__" whole;
    } in
    if defined m x && defined m "__ICCARM__"
    then internal_of (
        version (dec_of m x (λ v. v / 1000000)) (dec_of m x (λ v. v / 1000 % 1000))
          (dec_of m x (λ v. v % 1000)) absent)
    else if defined m x && small_iar m
    then internal_of (
        version (dec_of m x (λ v. v / 100)) (dec_of m x (λ v. v - v / 100 * 100))
          (dec_of m "__SUBVERSION__" whole) absent)
    else compiler "IAR" no_version

unfoldable pub sdcc : Macros → Compiler
sdcc m = compiler "SDCC" (
    if defined m "__SDCC_VERSION_MAJOR"
    then version (dec_of m "__SDCC_VERSION_MAJOR" whole) (dec_of m "__SDCC_VERSION_MINOR" whole)
        (dec_of m "__SDCC_VERSION_PATCH" whole) absent
    else version (dec_of m "SDCC" (λ v. v / 100)) (dec_of m "SDCC" (λ v. v / 10 % 10))
        (dec_of m "SDCC" (λ v. v % 10)) absent)
