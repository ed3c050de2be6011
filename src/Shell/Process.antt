-- ===== src/Shell/Process.antt =====
-- `startProcess` and the loop `hawsh` of Praktikum 2 Aufg 1/main.c. What the shell does to the
-- outside is a list of effects; what fork and waitpid answer is given.
use ws2425_bs_praktikum.Base.{
  ℕ, zero, suc, ◌+◌, ◌-◌, Bool, true, false, not, Option, none, some, List, [], ◌∷◌, ◌++◌, ◌==◌,
  if◌then◌else◌, get_or, get_elem?, set,
}
use ws2425_bs_praktikum.Base.Int.{ℤ, pos, negsuc, eqb_ℤ}
use ws2425_bs_praktikum.Base.Text.{c_string}
use ws2425_bs_praktikum.Shell.Text.{strlen, is_text, read_command, trim_string}

-- What fork answers: no process, the parent's side with the child's id and the status that waitpid
-- gives for it, or the child's side.
pub data Fork : Type 0 where
  failed : Fork
  parent : (pid : ℕ) (status : ℤ) → Fork
  child : Fork

pub data Effect : Type 0 where
  prompt welcome ciao version help invalid waiting unable_to_fork error : Effect
  chdir : List ℕ → Effect
  wait_for : (pid : ℕ) → Effect
  resumed : (status : Option ℤ) → Effect  -- `none`: the status was never assigned
  exec : List ℕ → Effect

abbrev pub ampersand : ℕ
ampersand = b'&'

-- command[strlen(command) - 1]; `none` for an empty string, where the index is out of range.
abbrev pub last_char : List ℕ → Option ℕ
last_char command = if strlen command == 0 then none else get_elem? command (strlen command - 1)

-- The result, and what was done. The child comes back from execlp only if that fails.
unfoldable pub start_process : Fork → List ℕ → Option (ℤ × List Effect)
start_process failed command = some (negsuc 0, unable_to_fork ∷ [])
start_process (parent pid status) command = elim (last_char command) [
  | none ↦ none
  | some c ↦ some (
    pos 0,
    if c == ampersand
        then resumed none ∷ []
        else waiting ∷ wait_for pid ∷ resumed (some status) ∷ [],
  )
]
start_process child command = elim (last_char command) [
  | none ↦ none
  | some c ↦ some (
    negsuc 0,
    exec (c_string (if c == ampersand then set command (strlen command - 1) 0 else command)) ∷ [],
  )
]

-- What hawsh makes of the result of startProcess: an error ends it.
unfoldable pub after_process : ℤ × List Effect → List Effect × Bool
after_process (code, effects) =
    if eqb_ℤ code (negsuc 0) then (effects ++ error ∷ [], true) else (effects, false)

-- One round of the loop behind trimString: the effects, and whether hawsh returns.
unfoldable pub round : Fork → List ℕ → Option (List Effect × Bool)
round fork command =
    if is_text command "quit"
    then some (ciao ∷ [], true)
    else if is_text command "version"
    then some (version ∷ [], false)
    else if is_text command "help"
    then some (help ∷ [], false)
    else if get_or command 0 0 == b'/'
    then some (chdir (c_string command) ∷ [], false)
    else if not (is_text command "")
    then (elim (start_process fork command) [
      | none ↦ none
      | some result ↦ some (after_process result)
    ])
    else some (invalid ∷ [], false)

-- A run of the shell: it has returned, it goes on behind the rounds looked at, or it has used an
-- index out of range.
pub data Session : Type 0 where
  returned : List Effect → Session
  running : List Effect → Session
  undefined : Session

abbrev pub behind : List Effect → Session → Session
behind effects (returned more) = returned (effects ++ more)
behind effects (running more) = running (effects ++ more)
behind effects undefined = undefined

-- So many rounds of `while (true)`, the first with the number n; `forks n` is the answer of fork in
-- round n.
unfoldable pub rounds : ℕ → (forks : ℕ → Fork) (n : ℕ) (input : List ℕ) → Session
rounds zero forks n input = running []
rounds (suc fuel) forks n input =
    let (line, rest) = read_command input in
    elim (round (forks n) (trim_string line)) [
      | none ↦ undefined
      | some (effects, ends) ↦ elim ends [
        | true ↦ returned (prompt ∷ effects)
        | false ↦ behind (prompt ∷ effects) (rounds fuel forks (n + 1) rest)
      ]
    ]

unfoldable pub hawsh : ℕ → (ℕ → Fork) → List ℕ → Session
unfolding rounds
hawsh fuel forks input = behind (welcome ∷ []) (rounds fuel forks 0 input)
