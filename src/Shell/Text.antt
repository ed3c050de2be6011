-- ===== src/Shell/Text.antt =====
-- C strings in the shell of Praktikum 2 Aufg 1/main.c: a char array is a list of byte values, and
-- the string in it ends before the first 0. Here are strlen, strcmp and fgets of the C library, and
-- the shell's own trimString.
use Prim.Native.String.{String}
use ws2425_bs_praktikum.Base.Text.{codes, c_string}
use ws2425_bs_praktikum.Base.{
  ℕ, zero, suc, ◌-◌, Bool, true, false, ◌&&◌, ◌||◌, List, [], ◌∷◌, ◌++◌, ◌==◌, if◌then◌else◌,
  get_or, set, length, replicate,
}

abbrev pub strlen : List ℕ → ℕ
strlen str = length (c_string str)

abbrev pub same_text : List ℕ → List ℕ → Bool
same_text [] [] = true
same_text (a ∷ s) (b ∷ t) = (a == b) && same_text s t
same_text _ _ = false

-- strcmp(str, text) == 0
abbrev pub is_text : List ℕ → String → Bool
is_text str text = same_text (c_string str) (codes text)

abbrev pub newline : ℕ
newline = 10

-- What fgets takes of the input: so many bytes at most, up to a newline and with it.
pub fgets : ℕ → List ℕ → List ℕ × List ℕ
fgets zero input = ([], input)
fgets (suc n) [] = ([], [])
fgets (suc n) (c ∷ input) =
    let (line, rest) = fgets n input in if c == newline then (c ∷ [], input) else (c ∷ line, rest)

abbrev pub command_size : ℕ
command_size = 256

-- `char command[256] = {}` after read_command: the line, the rest of the array 0. At the end of the
-- input fgets leaves the array as it is. What is left of the input comes second.
unfoldable pub read_command : List ℕ → List ℕ × List ℕ
unfolding fgets
read_command input =
    let (line, rest) = fgets (command_size - 1) input in
    (line ++ replicate (command_size - length line) 0, rest)

abbrev pub is_blank : ℕ → Bool
is_blank c = c == 0 || (c == 32 || c == newline)

-- The loop of trimString, entered at i = rounds - 1.
unfoldable pub trim_loop : (rounds : ℕ) → List ℕ → List ℕ
trim_loop zero str = str
trim_loop (suc i) str = elim (is_blank (get_or str i 0)) [
  | true ↦ trim_loop i (set str i 0)
  | false ↦ str
]

unfoldable pub trim_string : List ℕ → List ℕ
trim_string str = trim_loop (strlen str) str
