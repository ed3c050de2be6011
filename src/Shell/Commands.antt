-- ===== src/Shell/Commands.antt =====
-- What the loop of Praktikum 2 Aufg 1/main.c does with a command.
use ws2425_bs_praktikum.Base.{
  ℕ, zero, suc, ◌+◌, ◌-◌, ◌≡◌, ◌≢◌, refl, ap, Bool, true, false, not, ◌&&◌, ◌||◌, inl, inr, none,
  some, List, [], ◌∷◌, ◌++◌, arith, ◌==◌, if◌then◌else◌, get_or, get_elem?, set, length, Bool-cases,
}
use ws2425_bs_praktikum.Base.Int.{ℤ, pos, negsuc}
use ws2425_bs_praktikum.Base.Text.{c_string}
use ws2425_bs_praktikum.Shell.Text.{strlen, is_text, read_command, trim_string, trim_loop}
use ws2425_bs_praktikum.Shell.Trim.{last_or}
use ws2425_bs_praktikum.Shell.Process.{
  Fork, failed, parent, child, Effect, prompt, invalid, waiting, wait_for, resumed, exec, error,
  ciao, version, help, chdir, welcome, unable_to_fork, ampersand, last_char, start_process,
  after_process, round, running, rounds, hawsh,
}

abbrev pub drop_last : List ℕ → List ℕ
drop_last [] = []
drop_last (c ∷ []) = []
drop_last (c ∷ d ∷ cs) = c ∷ drop_last (d ∷ cs)

get-last :
    (c : ℕ) (cs : List ℕ)
    → get_elem? (c ∷ cs) (length (c_string cs)) ≡ some (last_or c (c_string cs))
get-last c [] = refl
get-last c (d ∷ ds) = elim (Bool-cases (d == 0)) [
  | inl end ↦ rw end refl
  | inr more ↦ rw more (get-last d ds)
]

cut-last :
    (c : ℕ) (cs : List ℕ)
    → c ≢ 0
    → c_string (set (c ∷ cs) (length (c_string cs)) 0) ≡ drop_last (c ∷ c_string cs)
cut-last c [] ne = refl
cut-last c (d ∷ ds) ne = elim (Bool-cases (d == 0)) [
  | inl end ↦ rw end refl
  | inr more ↦
      let plain : (c == 0) ≡ false = ground arith in
      rw (more, plain) (ap (◌∷◌ c) (cut-last d ds (ground arith)))
]

-- strlen - 1 is the place of the string's last byte.
last_char-last_or :
    (command : List ℕ)
    → c_string command ≢ []
    → last_char command ≡ some (last_or 0 (c_string command))
last_char-last_or [] ne = absurd (ne refl)
last_char-last_or (c ∷ cs) ne = elim (Bool-cases (c == 0)) [
  | inl end ↦ absurd (ne (rw end refl))
  | inr more ↦
      let place : length (c_string cs) + 1 - 1 ≡ length (c_string cs) = omega arith in
      ground (arith, get-last c cs)
]

c_string-cut :
    (command : List ℕ)
    → c_string command ≢ []
    → c_string (set command (strlen command - 1) 0) ≡ drop_last (c_string command)
c_string-cut [] ne = absurd (ne refl)
c_string-cut (c ∷ cs) ne = elim (Bool-cases (c == 0)) [
  | inl end ↦ absurd (ne (rw end refl))
  | inr more ↦
      let place : suc (length (c_string cs)) - 1 ≡ length (c_string cs) = omega arith in
      rw more (rw place (cut-last c cs (ground arith)))
]

is_empty_lem : (command : List ℕ) → is_text command "" ≡ false → c_string command ≢ []
is_empty_lem command h e = ground arith

abbrev pub in_background : List ℕ → Bool
in_background command = last_or 0 (c_string command) == ampersand

-- The two sides of startProcess for a command with a string in it. The parent returns 0; it waits
-- for the child exactly if the command does not end in '&', and only then has a status to print.
-- The child executes the command without that '&', and returns -1 if execlp comes back.
pub start_process_sides :
    (pid : ℕ) (status : ℤ) (command : List ℕ)
    → c_string command ≢ []
    → (start_process (parent pid status) command
        ≡ some (
          pos 0,
          if in_background command
              then resumed none ∷ []
              else waiting ∷ wait_for pid ∷ resumed (some status) ∷ [],
        ))
      × (start_process child command
          ≡ some (
            negsuc 0,
            exec (if in_background command then drop_last (c_string command) else c_string command)
                ∷ [],
          ))
unfolding start_process
start_process_sides pid status command ne =
    let last = last_char-last_or command ne in
    (
      rw (last, start_process) refl,
      rw (last, start_process)
          (elim (Bool-cases (in_background command)) [
            | inl b ↦ rw b (rw (c_string-cut command ne) refl)
            | inr b ↦ rw b refl
          ]),
    )

-- A command for startProcess: not one of the shell's own, no path, not empty.
abbrev pub is_program : List ℕ → Bool
is_program command =
    not (is_text command "quit")
    && (not (is_text command "version")
        && (not (is_text command "help")
            && (not (get_or command 0 0 == b'/') && not (is_text command ""))))

abbrev pub is_parent : Fork → Bool
is_parent (parent pid status) = true
is_parent _ = false

start_process_failed :
    (command : List ℕ) → start_process failed command ≡ some (negsuc 0, unable_to_fork ∷ [])
unfolding start_process
start_process_failed command = refl

start_process-code :
    (fork : Fork) (command : List ℕ)
    → is_text command "" ≡ false
    → (effects : List Effect) × (start_process fork command
        ≡ some (if is_parent fork then pos 0 else negsuc 0, effects))
start_process-code failed command h = (unable_to_fork ∷ [], start_process_failed command)
start_process-code (parent pid status) command h =
    (_, (start_process_sides pid status command (is_empty_lem command h)).0)
start_process-code child command h =
    (_, (start_process_sides 0 (pos 0) command (is_empty_lem command h)).1)

-- A round never uses an index out of range, and hawsh returns after it exactly on "quit", or on a
-- program where fork fails or execlp comes back in the child. A program that ran, well or badly,
-- does not end the shell.
pub round_ends :
    (fork : Fork) (command : List ℕ)
    → (effects : List Effect) × (round fork command
        ≡ some (effects, is_text command "quit" || (is_program command && not (is_parent fork))))
unfolding round after_process
round_ends fork command = elim (Bool-cases (is_text command "quit")) [
  | inl q ↦ (ciao ∷ [], ground arith)
  | inr q ↦ elim (Bool-cases (is_text command "version")) [
    | inl v ↦ (version ∷ [], ground arith)
    | inr v ↦ elim (Bool-cases (is_text command "help")) [
      | inl h ↦ (help ∷ [], ground arith)
      | inr h ↦ elim (Bool-cases (get_or command 0 0 == b'/')) [
        | inl path ↦ (chdir (c_string command) ∷ [], ground arith)
        | inr path ↦ elim (Bool-cases (is_text command "")) [
          | inl empty ↦ (invalid ∷ [], ground arith)
          | inr full ↦
              let (effects, done) = start_process-code fork command full in
              ((if is_parent fork then effects else effects ++ error ∷ []), ground (arith, done))
        ]
      ]
    ]
  ]
]

-- A prompt and the message that there is no valid command, so many times.
abbrev pub complaints : ℕ → List Effect
complaints zero = []
complaints (suc n) = prompt ∷ invalid ∷ complaints n

rest_at_end : (read_command []).1 ≡ []
unfolding read_command
rest_at_end = refl

round_at_end :
    (forks : ℕ → Fork) (n : ℕ)
    → round (forks n) (trim_string (read_command []).0) ≡ some (invalid ∷ [], false)
unfolding round read_command trim_string trim_loop
round_at_end forks n = refl

rounds_at_end :
    (fuel : ℕ) (forks : ℕ → Fork) (n : ℕ) → rounds fuel forks n [] ≡ running (complaints fuel)
unfolding rounds
rounds_at_end zero forks n = refl
rounds_at_end (suc fuel) forks n =
    rw (round_at_end forks n, rounds) (rw (rest_at_end, rounds_at_end fuel forks (n + 1)))

-- With no input left the shell does not return, in any number of rounds: it goes on to prompt
-- and to complain, once a round.
pub hawsh_at_end :
    (fuel : ℕ) (forks : ℕ → Fork) → hawsh fuel forks [] ≡ running (welcome ∷ complaints fuel)
unfolding hawsh
hawsh_at_end fuel forks = rw (rounds_at_end fuel forks 0)
