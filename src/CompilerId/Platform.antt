-- ===== src/CompilerId/Platform.antt =====
-- PLATFORM_ID and ARCHITECTURE_ID of CMakeCCompilerId.c.
use Prim.Native.String.{String}
use ws2425_bs_praktikum.Base.{ℕ, ◌&&◌, ◌||◌, List, [], ◌++◌, if◌then◌else◌, ◌==◌}
use ws2425_bs_praktikum.Base.Text.{codes}
use ws2425_bs_praktikum.CompilerId.Macros.{Macros, defined, value}

unfoldable pub platform_id : Macros → String
platform_id m =
    let has = defined m in
    if has "__linux" || (has "__linux__" || has "linux")
    then "Linux"
    else if has "__MSYS__"
    then "MSYS"
    else if has "__CYGWIN__"
    then "Cygwin"
    else if has "__MINGW32__"
    then "MinGW"
    else if has "__APPLE__"
    then "Darwin"
    else if has "_WIN32" || (has "__WIN32__" || has "WIN32")
    then "Windows"
    else if has "__FreeBSD__" || has "__FreeBSD"
    then "FreeBSD"
    else if has "__NetBSD__" || has "__NetBSD"
    then "NetBSD"
    else if has "__OpenBSD__" || has "__OPENBSD"
    then "OpenBSD"
    else if has "__sun" || has "sun"
    then "SunOS"
    else if has "_AIX" || (has "__AIX" || (has "__AIX__" || (has "__aix" || has "__aix__")))
    then "AIX"
    else if has "__hpux" || has "__hpux__"
    then "HP-UX"
    else if has "__HAIKU__"
    then "Haiku"
    else if has "__BeOS" || (has "__BEOS__" || has "_BEOS")
    then "BeOS"
    else if has "__QNX__" || has "__QNXNTO__"
    then "QNX"
    else if has "__tru64" || (has "_tru64" || has "__TRU64__")
    then "Tru64"
    else if has "__riscos" || has "__riscos__"
    then "RISCos"
    else if has "__sinix" || (has "__sinix__" || has "__SINIX__")
    then "SINIX"
    else if has "__UNIX_SV__"
    then "UNIX_SV"
    else if has "__bsdos__"
    then "BSDOS"
    else if has "_MPRAS" || has "MPRAS"
    then "MP-RAS"
    else if has "__osf" || has "__osf__"
    then "OSF1"
    else if has "_SCO_SV" || (has "SCO_SV" || has "sco_sv")
    then "SCO_SV"
    else if has "__ultrix" || (has "__ultrix__" || has "_ULTRIX")
    then "ULTRIX"
    else if has "__XENIX__" || (has "_XENIX" || has "XENIX")
    then "Xenix"
    else if has "__WATCOMC__"
    then (if has "__LINUX__"
        then "Linux"
        else if has "__DOS__"
        then "DOS"
        else if has "__OS2__"
        then "OS2"
        else if has "__WINDOWS__"
        then "Windows3x"
        else if has "__VXWORKS__"
        then "VxWorks"
        else "")
    else if has "__INTEGRITY"
    then (if has "INT_178B" then "Integrity178" else "Integrity")
    else if has "_ADI_COMPILER"
    then "ADSP"
    else ""

-- An architecture with the characters of a macro is text.
unfoldable pub architecture_id : Macros → List ℕ
architecture_id m =
    let has = defined m in
    if has "_WIN32" && has "_MSC_VER"
    then (if has "_M_IA64"
        then codes "IA64"
        else if has "_M_ARM64EC"
        then codes "ARM64EC"
        else if has "_M_X64" || has "_M_AMD64"
        then codes "x64"
        else if has "_M_IX86"
        then codes "X86"
        else if has "_M_ARM64"
        then codes "ARM64"
        else if has "_M_ARM"
        then (if value m "_M_ARM" == 4
            then codes "ARMV4I"
            else if value m "_M_ARM" == 5
            then codes "ARMV5I"
            else codes "ARMV" ++ m.spelling "_M_ARM")
        else if has "_M_MIPS"
        then codes "MIPS"
        else if has "_M_SH"
        then codes "SHx"
        else [])
    else if has "__WATCOMC__"
    then (if has "_M_I86" then codes "I86" else if has "_M_IX86" then codes "X86" else [])
    else if has "__IAR_SYSTEMS_ICC__" || has "__IAR_SYSTEMS_ICC"
    then (if has "__ICCARM__"
        then codes "ARM"
        else if has "__ICCRX__"
        then codes "RX"
        else if has "__ICCRH850__"
        then codes "RH850"
        else if has "__ICCRL78__"
        then codes "RL78"
        else if has "__ICCRISCV__"
        then codes "RISCV"
        else if has "__ICCAVR__"
        then codes "AVR"
        else if has "__ICC430__"
        then codes "MSP430"
        else if has "__ICCV850__"
        then codes "V850"
        else if has "__ICC8051__"
        then codes "8051"
        else if has "__ICCSTM8__"
        then codes "STM8"
        else [])
    else if has "__ghs__"
    then (if has "__PPC64__"
        then codes "PPC64"
        else if has "__ppc__"
        then codes "PPC"
        else if has "__ARM__"
        then codes "ARM"
        else if has "__x86_64__"
        then codes "x64"
        else if has "__i386__"
        then codes "X86"
        else [])
    else if has "__TI_COMPILER_VERSION__"
    then (if has "__TI_ARM__"
        then codes "ARM"
        else if has "__MSP430__"
        then codes "MSP430"
        else if has "__TMS320C28XX__"
        then codes "TMS320C28x"
        else if has "__TMS320C6X__" || has "_TMS320C6X"
        then codes "TMS320C6x"
        else [])
    else if has "__ADSPSHARC__"
    then codes "SHARC"
    else if has "__ADSPBLACKFIN__"
    then codes "Blackfin"
    else if has "__TASKING__"
    then (if has "__CTC__" || has "__CPTC__"
        then codes "TriCore"
        else if has "__CMCS__"
        then codes "MCS"
        else if has "__CARM__"
        then codes "ARM"
        else if has "__CARC__"
        then codes "ARC"
        else if has "__C51__"
        then codes "8051"
        else if has "__CPCP__"
        then codes "PCP"
        else [])
    else []
