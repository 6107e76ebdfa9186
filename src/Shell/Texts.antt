-- ===== src/Shell/Texts.antt =====
-- What the printed trees of lab1/print-command.c and the profile of lab1/execute-command.c leave out.
use mathlib.Core.List.{append_assoc, append-nil}
use cs111fall.Prelude.{ℕ, ◌≡◌, none, List, [], ◌++◌}
use cs111fall.Shell.Syntax.{Info, Command, no_branch, if_command, pipe_command, sequence_command}
use cs111fall.Shell.System.{System}
use cs111fall.Shell.Execute.{printcmd, write_redirections}
use cs111fall.Shell.Print.{
  Piece, nested, is_sequence, is_pipe, separator, command_indented_print, print_redirections,
}

-- No redirections.
abbrev pub IsPlain : Info → Type 0
IsPlain i = (i.input ≡ none) × (i.output ≡ none)

print_redirections-IsPlain : (i : Info) → IsPlain i → print_redirections i ≡ []
print_redirections-IsPlain i p = simp (p.0, p.1)

module _ (S : System) where
  write_redirections-IsPlain :
      (fd : ℕ) (i : Info) (w : S.World) → IsPlain i → write_redirections S fd i w ≡ w
  write_redirections-IsPlain fd i w p = simp (p.0, p.1)

regroup :
    (a b c between r : List Piece)
    → (a ++ between ++ b ++ []) ++ between ++ c ++ r
      ≡ a ++ between ++ (b ++ between ++ c ++ []) ++ r
regroup a b c between r = simp (append_assoc, append-nil)

-- Two sequences that differ in the grouping of their parts are printed alike, when the inner sequences have
-- no redirections; and so are two pipelines.
pub command_indented_print-regroup :
    (n : ℕ) (i j k : Info) (a b c : Command)
    → IsPlain j
    → IsPlain k
    → (command_indented_print n (sequence_command i (sequence_command j a b) c)
        ≡ command_indented_print n (sequence_command i a (sequence_command k b c)))
      × (command_indented_print n (pipe_command i (pipe_command j a b) c)
          ≡ command_indented_print n (pipe_command i a (pipe_command k b c)))
unfolding command_indented_print
command_indented_print-regroup n i j k a b c p q =
    rw (print_redirections-IsPlain j p, print_redirections-IsPlain k q)
      (
        regroup (command_indented_print (nested (is_sequence a) n) a)
            (command_indented_print (nested (is_sequence b) n) b)
            (command_indented_print (nested (is_sequence c) n) c) (separator n ";")
            (print_redirections i),
        regroup (command_indented_print (nested (is_pipe a) n) a)
            (command_indented_print (nested (is_pipe b) n) b)
            (command_indented_print (nested (is_pipe c) n) c) (separator n "|")
            (print_redirections i),
      )

-- The profile writes a command after an `if` without `else` as it writes a command inside of it, when the
-- `if` and the sequence within have no redirections.
pub printcmd-if_command :
    (S : System) (fd : ℕ) (s i k : Info) (a b c : Command) (w : S.World)
    → IsPlain i
    → IsPlain k
    → printcmd S fd (sequence_command s (if_command i a b no_branch) c) w
      ≡ printcmd S fd (if_command s a (sequence_command k b c) no_branch) w
unfolding printcmd
printcmd-if_command S fd s i k a b c w p q =
    simp (write_redirections-IsPlain S fd i _ p, write_redirections-IsPlain S fd k _ q)
