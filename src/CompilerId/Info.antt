-- ===== src/CompilerId/Info.antt =====
-- The strings that CMakeCCompilerId.c builds, in which CMake looks for what the compiler is, and
-- the function `main` that keeps them in the program.
use Prim.Native.String.{String}
use ws2425_bs_praktikum.Base.{
  ℕ, ◌+◌, Bool, true, false, not, ◌&&◌, ◌||◌, Option, none, some, List, [], ◌∷◌, ◌++◌,
  if◌then◌else◌, ltb, leb, get_elem?,
}
use ws2425_bs_praktikum.Base.Text.{codes}
use ws2425_bs_praktikum.CompilerId.Macros.{
  Macros, Component, absent, chars, undeclared, defined, value, Version,
}
use ws2425_bs_praktikum.CompilerId.Branches.{identify}
use ws2425_bs_praktikum.CompilerId.Platform.{platform_id, architecture_id}

-- A literal "INFO" ":" "tag[" text "]", with the 0 at its end.
unfoldable pub info : String → List ℕ → List ℕ
info tag text = codes "INFO:" ++ codes tag ++ b'[' ∷ text ++ b']' ∷ 0 ∷ []

-- The characters of a version: a component only behind the ones before it. `none`: a name is not
-- declared.
abbrev behind_dot : Option (List ℕ) → Option (List ℕ)
behind_dot none = none
behind_dot (some cs) = some (b'.' ∷ cs)

abbrev put_before : List ℕ → Option (List ℕ) → Option (List ℕ)
put_before cs none = none
put_before cs (some rest) = some (cs ++ rest)

abbrev nest : Component → Option (List ℕ) → Option (List ℕ)
nest absent rest = some []
nest (chars cs) rest = behind_dot (put_before cs rest)
nest undeclared rest = none

unfoldable pub version_text : List ℕ → Version → Option (List ℕ)
version_text major v = put_before major (nest v.minor (nest v.patch (nest v.tweak (some []))))

-- An array, if its characters are declared.
unfoldable pub with_info : String → Option (List ℕ) → Option (Option (List ℕ))
unfolding info
with_info tag none = none
with_info tag (some text) = some (some (info tag text))

-- info_version and info_simulate_version from the components; `some none`: the array is not there.
unfoldable pub info_of : String → (major : Component) → Version → Option (Option (List ℕ))
unfolding with_info version_text
info_of tag absent v = some none
info_of tag undeclared v = none
info_of tag (chars cs) v = with_info tag (version_text cs v)

unfoldable pub info_version :
    (compiler_version : Option (List ℕ)) → Version → Option (Option (List ℕ))
unfolding info info_of
info_version (some text) v = some (some (info "compiler_version" text))
info_version none v = info_of "compiler_version" v.major v

unfoldable pub info_version_internal :
    (internal : Component) (internal_str : Option (List ℕ)) → Option (Option (List ℕ))
unfolding info
info_version_internal undeclared str = none
info_version_internal (chars cs) str = some (some (info "compiler_version_internal" cs))
info_version_internal absent none = some none
info_version_internal absent (some text) = some (some (info "compiler_version_internal" text))

unfoldable pub info_simulate : Option String → Option (Option (List ℕ))
unfolding info
info_simulate none = some none
info_simulate (some id) = some (some (info "simulate" (codes id)))

unfoldable pub info_cray : Bool → Option (Option (List ℕ))
unfolding info
info_cray true = some (some (info "compiler_wrapper" (codes "CrayPrgEnv")))
info_cray false = some none

unfoldable pub c_version : Macros → String
c_version m =
    let v = value m "__STDC_VERSION__" in
    if not (defined m "__STDC__") && not (defined m "__clang__")
    then (if defined m "_MSC_VER" || (defined m "__ibmxl__" || defined m "__IBMC__")
        then "90"
        else "")
    else if ltb 201710 v
    then "23"
    else if leb 201710 v
    then "17"
    else if leb 201000 v
    then "11"
    else if leb 199901 v
    then "99"
    else "90"

unfoldable pub extensions : Macros → String
extensions m =
    if (defined m "__clang__"
        || (defined m "__GNUC__" || (defined m "__xlC__" || defined m "__TI_COMPILER_VERSION__")))
      && not (defined m "__STRICT_ANSI__")
    then "ON"
    else "OFF"

-- The arrays that `main` reads, in its order; `none` if the file does not compile.
abbrev pub with_array : Option (Option (List ℕ)) → Option (List (List ℕ)) → Option (List (List ℕ))
with_array none rest = none
with_array (some none) rest = rest
with_array (some (some a)) none = none
with_array (some (some a)) (some rest) = some (a ∷ rest)

-- Only if the macro is defined.
abbrev pub when : Bool → Option (Option (List ℕ)) → Option (Option (List ℕ))
when true a = a
when false none = none
when false (some _) = some none

abbrev pub is_given : Component → Bool
is_given absent = false
is_given _ = true

unfoldable pub collect : List (Option (Option (List ℕ))) → Option (List (List ℕ))
collect [] = some []
collect (a ∷ rest) = with_array a (collect rest)

unfoldable pub parts : Macros → List (Option (Option (List ℕ)))
unfolding info info_version info_version_internal info_of info_simulate info_cray c_version
    extensions
parts m =
    let c = identify m in
    let whole = λ (a : List ℕ). some (some a) in
    whole (info "compiler" (codes c.id))
    ∷ whole (info "platform" (codes (platform_id m)))
    ∷ whole (info "arch" (architecture_id m))
    ∷ when (is_given c.components.major) (info_version c.compiler_version c.components)
    ∷ when (is_given c.internal) (info_version_internal c.internal c.internal_str)
    ∷ info_simulate c.simulate_id
    ∷ info_of "simulate_version" c.simulate.major c.simulate
    ∷ info_cray (defined m "__CRAYXT_COMPUTE_LINUX_TARGET")
    ∷ whole (info "standard_default" (codes (c_version m)))
    ∷ whole (info "extensions_default" (codes (extensions m)))
    ∷ []

unfoldable pub arrays : Macros → Option (List (List ℕ))
unfolding collect parts
arrays m = if defined m "__cplusplus" then none else collect (parts m)

-- A run of `main`: the sum of the arrays' elements at argc.
pub data Exit : Type 0 where
  no_program : Exit
  out_of_bounds : Exit
  unspecified : Exit
  exit_code : ℕ → Exit

abbrev pub add_exit : Option ℕ → Exit → Exit
add_exit none e = out_of_bounds
add_exit (some c) (exit_code n) = exit_code (c + n)
add_exit (some c) e = e

unfoldable pub require : ℕ → List (List ℕ) → Exit
require argc [] = exit_code 0
require argc (a ∷ rest) = add_exit (get_elem? a argc) (require argc rest)

-- Under ID_VOID_MAIN the body is empty, and what the program exits with is not specified.
unfoldable pub exit_of : (void_main : Bool) → Option (List (List ℕ)) → ℕ → Exit
unfolding require
exit_of void_main none argc = no_program
exit_of true (some as_read) argc = unspecified
exit_of false (some as_read) argc = require argc as_read

unfoldable pub main : Macros → ℕ → Exit
unfolding arrays exit_of
main m argc = exit_of (defined m "__18CXX") (arrays m) argc
