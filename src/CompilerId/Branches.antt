-- ===== src/CompilerId/Branches.antt =====
-- The chain of #if and #elif in CMakeCCompilerId.c that picks the branch for a compiler.
use ws2425_bs_praktikum.Base.{not, ◌&&◌, ◌||◌, if◌then◌else◌, ltb, leb}
use ws2425_bs_praktikum.CompilerId.Macros.{Macros, defined, value, no_version, Compiler, compiler}
use ws2425_bs_praktikum.CompilerId.Early
use ws2425_bs_praktikum.CompilerId.Late

-- The branches, in their order.
pub data Branch : Type 0 where
  intel intel_llvm path_scale embarcadero borland watcom open_watcom sun_pro hp compaq z_os : Branch
  ibm_clang xl_clang xl visual_age nvhpc pgi cray ti fujitsu_clang fujitsu ghs tasking : Branch
  tiny_cc bruce sco armcc apple_clang arm_clang clang lcc gnu msvc adsp iar sdcc : Branch
  hp_ux unknown : Branch

unfoldable pub branch : Macros → Branch
branch m =
    let has = defined m in
    if has "__INTEL_COMPILER" || has "__ICC"
    then intel
    else if (has "__clang__" && has "__INTEL_CLANG_COMPILER") || has "__INTEL_LLVM_COMPILER"
    then intel_llvm
    else if has "__PATHCC__"
    then path_scale
    else if has "__BORLANDC__" && has "__CODEGEARC_VERSION__"
    then embarcadero
    else if has "__BORLANDC__"
    then borland
    else if has "__WATCOMC__" && ltb (value m "__WATCOMC__") 1200
    then watcom
    else if has "__WATCOMC__"
    then open_watcom
    else if has "__SUNPRO_C"
    then sun_pro
    else if has "__HP_cc"
    then hp
    else if has "__DECC"
    then compaq
    else if has "__IBMC__" && has "__COMPILER_VER__"
    then z_os
    else if has "__open_xl__" && has "__clang__"
    then ibm_clang
    else if has "__ibmxl__" && has "__clang__"
    then xl_clang
    else if has "__IBMC__" && (not (has "__COMPILER_VER__") && leb 800 (value m "__IBMC__"))
    then xl
    else if has "__IBMC__" && (not (has "__COMPILER_VER__") && ltb (value m "__IBMC__") 800)
    then visual_age
    else if has "__NVCOMPILER"
    then nvhpc
    else if has "__PGI"
    then pgi
    else if has "_CRAYC"
    then cray
    else if has "__TI_COMPILER_VERSION__"
    then ti
    else if has "__CLANG_FUJITSU"
    then fujitsu_clang
    else if has "__FUJITSU"
    then fujitsu
    else if has "__ghs__"
    then ghs
    else if has "__TASKING__"
    then tasking
    else if has "__TINYC__"
    then tiny_cc
    else if has "__BCC__"
    then bruce
    else if has "__SCO_VERSION__"
    then sco
    else if has "__ARMCC_VERSION" && not (has "__clang__")
    then armcc
    else if has "__clang__" && has "__apple_build_version__"
    then apple_clang
    else if has "__clang__" && has "__ARMCOMPILER_VERSION"
    then arm_clang
    else if has "__clang__"
    then clang
    else if has "__LCC__" && (has "__GNUC__" || (has "__GNUG__" || has "__MCST__"))
    then lcc
    else if has "__GNUC__"
    then gnu
    else if has "_MSC_VER"
    then msvc
    else if has "_ADI_COMPILER"
    then adsp
    else if has "__IAR_SYSTEMS_ICC__" || has "__IAR_SYSTEMS_ICC"
    then iar
    else if has "__SDCC_VERSION_MAJOR" || has "SDCC"
    then sdcc
    else if has "__hpux" || has "__hpua"
    then hp_ux
    else unknown

unfoldable pub defines : Branch → Macros → Compiler
unfolding Early.intel Early.intel_llvm Early.path_scale Early.embarcadero Early.borland Early.watcom
    Early.open_watcom Early.sun_pro Early.hp Early.compaq Early.z_os Early.ibm_clang Early.xl_clang
    Early.xl Early.visual_age Late.nvhpc Late.pgi Late.cray Late.ti Late.fujitsu_clang Late.fujitsu
    Late.ghs Late.tasking Late.armcc Late.apple_clang Late.arm_clang Late.clang Late.lcc Late.gnu
    Late.msvc Late.adsp Late.iar Late.sdcc
defines intel m = Early.intel m
defines intel_llvm m = Early.intel_llvm m
defines path_scale m = Early.path_scale m
defines embarcadero m = Early.embarcadero m
defines borland m = Early.borland m
defines watcom m = Early.watcom m
defines open_watcom m = Early.open_watcom m
defines sun_pro m = Early.sun_pro m
defines hp m = Early.hp m
defines compaq m = Early.compaq m
defines z_os m = Early.z_os m
defines ibm_clang m = Early.ibm_clang m
defines xl_clang m = Early.xl_clang m
defines xl m = Early.xl m
defines visual_age m = Early.visual_age m
defines nvhpc m = Late.nvhpc m
defines pgi m = Late.pgi m
defines cray m = Late.cray m
defines ti m = Late.ti m
defines fujitsu_clang m = Late.fujitsu_clang m
defines fujitsu m = Late.fujitsu m
defines ghs m = Late.ghs m
defines tasking m = Late.tasking m
defines tiny_cc m = compiler "TinyCC" no_version
defines bruce m = compiler "Bruce" no_version
defines sco m = compiler "SCO" no_version
defines armcc m = Late.armcc m
defines apple_clang m = Late.apple_clang m
defines arm_clang m = Late.arm_clang m
defines clang m = Late.clang m
defines lcc m = Late.lcc m
defines gnu m = Late.gnu m
defines msvc m = Late.msvc m
defines adsp m = Late.adsp m
defines iar m = Late.iar m
defines sdcc m = Late.sdcc m
defines hp_ux m = compiler "HP" no_version
defines unknown m = compiler "" no_version

unfoldable pub identify : Macros → Compiler
unfolding branch defines
identify m = defines (branch m) m
