-- ===== src/CompilerId/Early.antt =====
-- The branches of CMakeCCompilerId.c from Intel to VisualAge: what each defines.
use Prim.Native.String.{String}
use ws2425_bs_praktikum.Base.{
  ◌-◌, ◌/◌, ◌%◌, ◌^◌, ◌||◌, Option, none, some, if◌then◌else◌, ltb, leb, ◌==◌,
}
use ws2425_bs_praktikum.CompilerId.Macros.{
  Macros, Component, absent, chars, dec, defined, value, dec_of, hex_of, dec_if, whole, Version,
  version, Compiler, compiler,
}

-- SIMULATE_ID of Intel and IntelLLVM: the later #define counts.
unfoldable pub intel_simulate_id : Macros → Option String
intel_simulate_id m =
    if defined m "__GNUC__" then some "GNU" else if defined m "_MSC_VER" then some "MSVC" else none

-- SIMULATE_VERSION of Intel and IntelLLVM.
unfoldable pub intel_simulate : Macros → Version
intel_simulate m =
    version
      (if defined m "__GNUC__"
        then dec_of m "__GNUC__" whole
        else if defined m "__GNUG__"
        then dec_of m "__GNUG__" whole
        else dec_if m "_MSC_VER" (λ v. v / 100))
      (if defined m "__GNUC_MINOR__"
        then dec_of m "__GNUC_MINOR__" whole
        else dec_if m "_MSC_VER" (λ v. v % 100))
      (dec_if m "__GNUC_PATCHLEVEL__" whole) absent

unfoldable pub intel_version : Macros → Version
intel_version m =
    let v = value m "__INTEL_COMPILER" in
    let tweak = dec_if m "__INTEL_COMPILER_BUILD_DATE" whole in
    if ltb v 2021 || (v == 202110 || v == 202111)
    then version (dec_of m "__INTEL_COMPILER" (λ n. n / 100))
        (dec_of m "__INTEL_COMPILER" (λ n. n / 10 % 10))
        (if defined m "__INTEL_COMPILER_UPDATE"
          then dec_of m "__INTEL_COMPILER_UPDATE" whole
          else dec_of m "__INTEL_COMPILER" (λ n. n % 10))
        tweak
    else version (dec_of m "__INTEL_COMPILER" whole) (dec_of m "__INTEL_COMPILER_UPDATE" whole)
        (chars (dec 0)) tweak

unfoldable pub intel : Macros → Compiler
unfolding intel_simulate_id intel_simulate intel_version
intel m = record (compiler "Intel" (intel_version m)) {
  simulate_id = intel_simulate_id m;
  simulate = intel_simulate m;
}

unfoldable pub intel_llvm : Macros → Compiler
unfolding intel_simulate_id intel_simulate
intel_llvm m =
    let x : String = "__INTEL_LLVM_COMPILER" in
    record (compiler "IntelLLVM" (
      if ltb (value m x) 1000000
      then version (dec_of m x (λ v. v / 100)) (dec_of m x (λ v. v / 10 % 10))
          (dec_of m x (λ v. v % 10)) absent
      else version (dec_of m x (λ v. v / 10000)) (dec_of m x (λ v. v / 100 % 100))
          (dec_of m x (λ v. v % 100)) absent)) {
            simulate_id = intel_simulate_id m;
            simulate = intel_simulate m;
          }

unfoldable pub path_scale : Macros → Compiler
path_scale m = compiler "PathScale" (
    version (dec_of m "__PATHCC__" whole) (dec_of m "__PATHCC_MINOR__" whole)
      (dec_if m "__PATHCC_PATCHLEVEL__" whole) absent)

unfoldable pub embarcadero : Macros → Compiler
embarcadero m =
    let x : String = "__CODEGEARC_VERSION__" in
    compiler "Embarcadero" (
      version (hex_of m x (λ v. v / 2 ^ 24 % 256)) (hex_of m x (λ v. v / 2 ^ 16 % 256))
        (dec_of m x (λ v. v % 65536)) absent)

unfoldable pub borland : Macros → Compiler
borland m =
    let x : String = "__BORLANDC__" in
    compiler "Borland"
      (version (hex_of m x (λ v. v / 2 ^ 8)) (hex_of m x (λ v. v % 256)) absent absent)

-- The components behind the first of Watcom and OpenWatcom.
abbrev watcom_version : Macros → Component → Version
watcom_version m major =
    let x : String = "__WATCOMC__" in
    version major (dec_of m x (λ v. v / 10 % 10))
      (if ltb 0 (value m x % 10) then dec_of m x (λ v. v % 10) else absent) absent

unfoldable pub watcom : Macros → Compiler
watcom m = compiler "Watcom" (watcom_version m (dec_of m "__WATCOMC__" (λ v. v / 100)))

-- The branch is taken only from 1200 on, so the difference is not negative.
unfoldable pub open_watcom : Macros → Compiler
open_watcom m =
    compiler "OpenWatcom" (watcom_version m (dec_of m "__WATCOMC__" (λ v. (v - 1100) / 100)))

unfoldable pub sun_pro : Macros → Compiler
sun_pro m =
    let x : String = "__SUNPRO_C" in
    compiler "SunPro" (
      if leb 0x5100 (value m x)
      then version (hex_of m x (λ v. v / 2 ^ 12)) (hex_of m x (λ v. v / 2 ^ 4 % 256))
          (hex_of m x (λ v. v % 16)) absent
      else version (hex_of m x (λ v. v / 2 ^ 8)) (hex_of m x (λ v. v / 2 ^ 4 % 16))
          (hex_of m x (λ v. v % 16)) absent)

unfoldable pub hp : Macros → Compiler
hp m =
    let x : String = "__HP_cc" in
    compiler "HP" (
      version (dec_of m x (λ v. v / 10000)) (dec_of m x (λ v. v / 100 % 100))
        (dec_of m x (λ v. v % 100)) absent)

unfoldable pub compaq : Macros → Compiler
compaq m =
    let x : String = "__DECC_VER" in
    compiler "Compaq" (
      version (dec_of m x (λ v. v / 10000000)) (dec_of m x (λ v. v / 100000 % 100))
        (dec_of m x (λ v. v % 10000)) absent)

-- __IBMC__ = VRP, of zOS, XL and VisualAge.
abbrev ibm_version : Macros → Version
ibm_version m =
    let x : String = "__IBMC__" in
    version (dec_of m x (λ v. v / 100)) (dec_of m x (λ v. v / 10 % 10)) (dec_of m x (λ v. v % 10))
      absent

unfoldable pub z_os : Macros → Compiler
z_os m = compiler "zOS" (ibm_version m)

unfoldable pub ibm_clang : Macros → Compiler
ibm_clang m = compiler "IBMClang" (
    version (dec_of m "__open_xl_version__" whole) (dec_of m "__open_xl_release__" whole)
      (dec_of m "__open_xl_modification__" whole) (dec_of m "__open_xl_ptf_fix_level__" whole))

unfoldable pub xl_clang : Macros → Compiler
xl_clang m = compiler "XLClang" (
    version (dec_of m "__ibmxl_version__" whole) (dec_of m "__ibmxl_release__" whole)
      (dec_of m "__ibmxl_modification__" whole) (dec_of m "__ibmxl_ptf_fix_level__" whole))

unfoldable pub xl : Macros → Compiler
xl m = compiler "XL" (ibm_version m)

unfoldable pub visual_age : Macros → Compiler
visual_age m = compiler "VisualAge" (ibm_version m)
