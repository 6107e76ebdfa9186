-- ===== src/Shell/Tests.antt =====
-- lab1: the shell on a small system, whose world is the list of what was executed and written.
use Prim.Native.String.{String}
use text.Mathlib.Text.{◌==◌ as str_eq}
use cs111fall.Prelude.{
  ℕ, ◌≡◌, refl, ◌≢◌, false, none, some, List, [], ◌∷◌, ◌++◌, if◌then◌else◌, arith,
}
use cs111fall.Shell.Syntax.{
  Info, Command, branch, if_command, pipe_command, sequence_command, simple_command, until_command,
  unknown,
}
use cs111fall.Shell.System.{System, finished}
use cs111fall.Shell.Execute.{printcmd, execute_command}
use cs111fall.Shell.Print.{command_indented_print}
use cs111fall.Shell.Main.{main}
use cs111fall.Shell.Status.{Returns, Keeps, execute_command-Keeps}
use cs111fall.Shell.Conditions.{
  run_else, Never, execute_if_command-run_else, execute_until_command-Never,
}
use cs111fall.Shell.Texts.{command_indented_print-regroup}
use cs111fall.Shell.Script.{main-command_status}

-- `true` succeeds and all other programs fail.
abbrev exec_status : List String → ℕ
exec_status [] = 1
exec_status (s ∷ rest) = if str_eq s "true" then 0 else 1

abbrev toy : System
toy = record {
  World = List String;
  fault = λ w. w;
  Time = ℕ;
  Pipe = ℕ;
  now = λ w. some 0;
  stamp = λ t w. some ("0 " ∷ []);
  stamp_children = λ t w. some ("1 " ∷ []);
  pid_text = λ w. "7";
  write = λ fd s w. w ++ (s ∷ []);
  fork = λ w. some w;
  join = λ w w'. w';
  redirect_input = λ f w. some w;
  redirect_output = λ f w. none;
  execvp = λ words w. (exec_status words, w ++ words);
  unset_status = λ w. 0;
  pipe = λ w. some (0, w);
  to_writer = λ p w. some w;
  to_reader = λ p w. some w;
  close_both = λ p w. w;
}

abbrev fresh : Info
fresh = record { status = unknown; input = none; output = none }

abbrev true_command : Command
true_command = simple_command fresh ("true" ∷ [])

abbrev other_command : Command
other_command = simple_command fresh ("ls" ∷ [])

abbrev both : Command
both = sequence_command fresh true_command true_command

abbrev conditional : Command
conditional = if_command fresh both true_command (branch other_command)

unknown_fails : unknown ≢ 0
unknown_fails e = absurd (omega arith)

execute_command-Keeps_example : Returns (Keeps fresh) (execute_command toy 5 3 both [])
execute_command-Keeps_example = execute_command-Keeps toy 3 5 both [] tt

execute_if_command-run_else_example :
    execute_command toy 3 3 conditional []
    ≡ run_else toy 3 (execute_command toy 2 3) fresh both true_command (branch other_command) []
execute_if_command-run_else_example =
    execute_if_command-run_else toy 3 both tt unknown_fails 2 fresh true_command
      (branch other_command) []

execute_until_command-Never_example :
    Returns Never (execute_command toy 6 3 (until_command fresh both true_command) [])
execute_until_command-Never_example =
    execute_until_command-Never toy 3 6 fresh both true_command [] tt unknown_fails

command_indented_print-regroup_example :
    (command_indented_print 2 (sequence_command fresh both other_command)
      ≡ command_indented_print 2
          (sequence_command fresh true_command (sequence_command fresh true_command other_command)))
    × (command_indented_print 2
          (pipe_command fresh (pipe_command fresh true_command true_command) other_command)
        ≡ command_indented_print 2
            (pipe_command fresh true_command (pipe_command fresh true_command other_command)))
command_indented_print-regroup_example =
    command_indented_print-regroup 2 fresh fresh fresh true_command true_command other_command
      (refl, refl) (refl, refl)

main-command_status_example :
    Returns (λ r. r ≡ (unknown, [])) (main toy 4 3 false (true_command ∷ both ∷ []) [])
main-command_status_example = main-command_status toy 4 3 (true_command ∷ []) both [] tt

-- The executor on a simple command: the status, and the words of the profile.
execute_simple_test :
    execute_command toy 1 3 true_command []
    ≡ finished
        (simple_command (record fresh { status = 0 }) ("true" ∷ []))
        ("true" ∷ "1 " ∷ "true" ∷ " " ∷ "[" ∷ "7" ∷ "]" ∷ "\n" ∷ [])
unfolding execute_command cs111fall.Shell.Execute.execute_simple_command
    cs111fall.Shell.Execute.run_simple cs111fall.Shell.Execute.run_child
    cs111fall.Shell.Execute.profile printcmd cs111fall.Shell.Execute.write_words
    cs111fall.Shell.Execute.write_all
execute_simple_test = refl
