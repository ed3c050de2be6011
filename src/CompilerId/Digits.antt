-- ===== src/CompilerId/Digits.antt =====
-- The macros DEC and HEX of CMakeCCompilerId.c, and the reading of a version from the string that
-- they build.
use ws2425_bs_praktikum.Base.{
  ℕ, ◌+◌, ◌-◌, ◌*◌, ◌/◌, ◌%◌, ◌^◌, ◌<◌, ◌≡◌, ap, ◌∙◌, some, List, [], ◌∷◌, ◌++◌, arith,
  if◌then◌else◌, ◌==◌,
}
use ws2425_bs_praktikum.Base.Text.{codes}
use ws2425_bs_praktikum.CompilerId.Macros.{Macros, dec, hex}
use ws2425_bs_praktikum.CompilerId.Branches.{gnu, branch, defines, identify}
use ws2425_bs_praktikum.CompilerId.Info.{info, info_version}

-- The number that characters behind '0' stand for, in a base.
abbrev pub read : (base acc : ℕ) → List ℕ → ℕ
read base acc [] = acc
read base acc (c ∷ cs) = read base (acc * base + (c - b'0')) cs

-- The value of a character behind '0'.
behind_0 : (d : ℕ) → b'0' + d - b'0' ≡ d
behind_0 d = omega arith

-- The digits of DEC stand for the last eight decimal digits of every number, the characters of HEX
-- for its last 32 bits.
read-dec : (n : ℕ) → read 10 0 (dec n) ≡ n % 100000000
unfolding dec
read-dec n = simp (behind_0) (omega arith)

read-hex : (n : ℕ) → read 16 0 (hex n) ≡ n % 2 ^ 32
unfolding hex
read-hex n = simp (behind_0) (omega arith)

-- A version as CMake reads it from "...[major.minor...]": the numbers between the dots.
pub read_fields : ℕ → List ℕ → List ℕ
read_fields acc [] = []
read_fields acc (c ∷ cs) =
    if c == b']'
    then acc ∷ []
    else if c == b'.'
    then acc ∷ read_fields 0 cs
    else read_fields (acc * 10 + (c - b'0')) cs

field_step :
    (acc d : ℕ) (rest : List ℕ) (v : ℕ)
    → d < 10
    → acc * 10 + d ≡ v
    → read_fields acc ((b'0' + d) ∷ rest) ≡ read_fields v rest
unfolding read_fields
field_step acc d rest v h e = ground arith

-- A component is read as its number, as far as eight digits go.
read_fields-dec :
    (n : ℕ) (rest : List ℕ) → n < 100000000 → read_fields 0 (dec n ++ rest) ≡ read_fields n rest
unfolding dec
read_fields-dec n rest h =
    field_step 0 (n / 10000000 % 10) _ (n / 10000000) (omega arith) (omega arith)
    ∙ (field_step (n / 10000000) (n / 1000000 % 10) _ (n / 1000000) (omega arith) (omega arith)
        ∙ (field_step (n / 1000000) (n / 100000 % 10) _ (n / 100000) (omega arith) (omega arith)
            ∙ (field_step (n / 100000) (n / 10000 % 10) _ (n / 10000) (omega arith) (omega arith)
                ∙ (field_step (n / 10000) (n / 1000 % 10) _ (n / 1000) (omega arith) (omega arith)
                    ∙ (field_step (n / 1000) (n / 100 % 10) _ (n / 100) (omega arith) (omega arith)
                        ∙ (field_step (n / 100) (n / 10 % 10) _ (n / 10) (omega arith) (omega arith)
                            ∙ field_step (n / 10) (n % 10) _ n (omega arith) (omega arith)))))))

-- Behind three components that DEC built, closed by ']'.
read-version :
    (a b c : ℕ) (rest : List ℕ)
    → a < 100000000
    → b < 100000000
    → c < 100000000
    → read_fields 0 (dec a ++ (b'.' ∷ (dec b ++ (b'.' ∷ (dec c ++ (b']' ∷ rest))))))
      ≡ a ∷ b ∷ c ∷ []
unfolding read_fields
read-version a b c rest ha hb hc =
    read_fields-dec a (b'.' ∷ (dec b ++ (b'.' ∷ (dec c ++ (b']' ∷ rest))))) ha
    ∙ ap (◌∷◌ a) (
        read_fields-dec b (b'.' ∷ (dec c ++ (b']' ∷ rest))) hb
        ∙ ap (◌∷◌ b) (read_fields-dec c (b']' ∷ rest) hc))

-- For GCC, with components below 10^8: info_version is there, it begins with
-- "INFO:compiler_version[", and what is behind that is read as the three numbers.
pub read-info_version :
    (m : Macros) (a b c : ℕ)
    → branch m ≡ gnu
    → m.number "__GNUC__" ≡ some a
    → m.number "__GNUC_MINOR__" ≡ some b
    → m.number "__GNUC_PATCHLEVEL__" ≡ some c
    → a < 100000000
    → b < 100000000
    → c < 100000000
    → (rest : List ℕ) × (info_version (identify m).compiler_version (identify m).components
        ≡ some (some (codes "INFO:compiler_version[" ++ rest)))
      × (read_fields 0 rest ≡ a ∷ b ∷ c ∷ [])
unfolding identify info_version info defines dec
read-info_version m a b c e ea eb ec ha hb hc = (
  dec a ++ (b'.' ∷ (dec b ++ (b'.' ∷ (dec c ++ (b']' ∷ 0 ∷ []))))),
  ground (arith, e, ea, eb, ec),
  read-version a b c (0 ∷ []) ha hb hc,
)
