-- ===== src/Shell/Tests.antt =====
-- The theorems about Praktikum 2 Aufg 1/main.c at concrete commands.
use ws2425_bs_praktikum.Base.{ℕ, ◌≡◌, true, none, some, List, [], ◌∷◌, arith}
use ws2425_bs_praktikum.Base.Int.{pos, negsuc}
use ws2425_bs_praktikum.Base.Text.{c_string}
use ws2425_bs_praktikum.Shell.Text.{trim_string}
use ws2425_bs_praktikum.Shell.Trim.{IsTrimmed, trim_string-IsTrimmed}
use ws2425_bs_praktikum.Shell.Process.{
  failed, parent, child, Effect, prompt, invalid, welcome, resumed, exec, start_process, round,
  running, hawsh,
}
use ws2425_bs_praktikum.Shell.Commands.{start_process_sides, round_ends, hawsh_at_end}

-- "ls&" in an array.
abbrev ls_behind : List ℕ
ls_behind = 108 ∷ 115 ∷ 38 ∷ 0 ∷ 0 ∷ []

abbrev ls_line : List ℕ
ls_line = 108 ∷ 115 ∷ 32 ∷ 10 ∷ 0 ∷ []

trim_string-IsTrimmed_example :
    IsTrimmed (108 ∷ 115 ∷ 32 ∷ 10 ∷ []) (c_string (trim_string ls_line))
trim_string-IsTrimmed_example = trim_string-IsTrimmed ls_line

start_process_sides_example :
    (start_process (parent 7 (pos 0)) ls_behind ≡ some (pos 0, resumed none ∷ []))
    × (start_process child ls_behind ≡ some (negsuc 0, exec (108 ∷ 115 ∷ []) ∷ []))
start_process_sides_example = start_process_sides 7 (pos 0) ls_behind (ground arith)

round_ends_example : (effects : List Effect) × (round failed ls_behind ≡ some (effects, true))
round_ends_example = round_ends failed ls_behind

hawsh_at_end_example :
    hawsh 2 (λ _. failed) [] ≡ running (welcome ∷ prompt ∷ invalid ∷ prompt ∷ invalid ∷ [])
hawsh_at_end_example = hawsh_at_end 2 (λ _. failed)
