-- ===== src/Shell/Main.antt =====
-- lab1/main.c: the loop of `main` over the commands of a script, once the options are read.
use cs111fall.Prelude.{ℕ, suc, Bool, true, false, Option, none, some, List, [], ◌∷◌, ◌++◌}
use cs111fall.Shell.Syntax.{Command, command_status}
use cs111fall.Shell.System.{System, Outcome, finished, and_then}
use cs111fall.Shell.Execute.{execute_command}
use cs111fall.Shell.Print.{Piece, text, number, print_command}

-- With `-t`: the text that goes to the standard output.
unfoldable pub print_commands : (command_number : ℕ) → List Command → List Piece
print_commands n [] = []
print_commands n (c ∷ rest) =
    text "# " ∷ number n ∷ text "\n" ∷ print_command c ++ print_commands (suc n) rest

module _ (S : System) (fuel fd : ℕ) where
  open S use {World}

  -- Without `-t`: every command is executed, and the last one is kept.
  unfoldable pub execute_commands :
      Option Command → List Command → World → Outcome World (Option Command)
  execute_commands last_command [] w = finished last_command w
  execute_commands last_command (c ∷ rest) w =
      and_then (execute_command S fuel fd c w) λ c' w1. execute_commands (some c') rest w1

  abbrev pub exit_status : Option Command → ℕ
  exit_status none = 0
  exit_status (some c) = command_status c

  -- The value that `main` returns, and what it prints.
  unfoldable pub main : (print_tree : Bool) → List Command → World → Outcome World (ℕ × List Piece)
  main true script w = finished (0, print_commands 1 script) w
  main false script w =
      and_then (execute_commands none script w)
        λ last_command w1. finished (exit_status last_command, []) w1
