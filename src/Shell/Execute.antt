-- ===== src/Shell/Execute.antt =====
-- lab1/execute-command.c: the executor, and the text that it writes to the profile.
use Prim.Native.String.{String}
use text.Mathlib.Text.{◌==◌ as str_eq}
use cs111fall.Prelude.{
  ℕ, zero, suc, Bool, true, false, Option, none, some, List, [], ◌∷◌, ◌==◌, if◌then◌else◌,
}
use cs111fall.Shell.Syntax.{
  Info, Command, Branch, if_command, pipe_command, sequence_command, simple_command,
  subshell_command, until_command, while_command, no_branch, branch, info, with_info,
  command_status,
}
use cs111fall.Shell.System.{System, Outcome, finished, out_of_fuel, and_then, or_exit, last}

-- `if (c->u.command[0] ...) input = c->input` of a subshell, for one redirection.
abbrev pub replace : Option String → Option String → Option String
replace none old = old
replace (some f) old = some f

module _ (S : System) where
  open S use {
    World, fault, Time, now, stamp, stamp_children, pid_text, write, fork, join, redirect_input,
    redirect_output, execvp, unset_status, Pipe, pipe, to_writer, to_reader, close_both,
  }

  abbrev pub Result : Type 0
  Result = Outcome World Command

  unfoldable pub write_all : ℕ → List String → World → World
  write_all fd [] w = w
  write_all fd (s ∷ rest) w = write_all fd rest (write fd s w)

  abbrev write_more : ℕ → List String → World → World
  write_more fd [] w = w
  write_more fd (s ∷ rest) w = write_more fd rest (write fd " " (write fd s w))

  -- The first word is written before the loop looks for the end of the words.
  unfoldable pub write_words : ℕ → List String → World → World
  write_words fd [] w = fault w
  write_words fd (s ∷ rest) w = write_more fd rest (write fd " " (write fd s w))

  abbrev pub write_redirection : ℕ → String → Option String → World → World
  write_redirection fd mark none w = w
  write_redirection fd mark (some f) w = write fd " " (write fd f (write fd mark w))

  abbrev pub write_redirections : ℕ → Info → World → World
  write_redirections fd i w = write_redirection fd ">" i.output (write_redirection fd "<" i.input w)

  unfoldable mutual
    pub printcmd : ℕ → Command → World → World
    printcmd fd (if_command i a b e) w =
        let w1 = printcmd fd b (write fd "then " (printcmd fd a (write fd "if " w))) in
        write_redirections fd i (print_else fd e w1)
    printcmd fd (pipe_command i a b) w =
        write_redirections fd i (printcmd fd b (write fd "| " (printcmd fd a w)))
    printcmd fd (sequence_command i a b) w =
        write_redirections fd i (printcmd fd b (write fd "; " (printcmd fd a w)))
    printcmd fd (simple_command i word) w = write_redirections fd i (write_words fd word w)
    printcmd fd (subshell_command i a) w =
        write_redirections fd i (write fd ") " (printcmd fd a (write fd "( " w)))
    printcmd fd (until_command i a b) w =
        let w1 = printcmd fd b (write fd "do " (printcmd fd a (write fd "until " w))) in
        write_redirections fd i (write fd "done " w1)
    printcmd fd (while_command i a b) w =
        let w1 = printcmd fd b (write fd "do " (printcmd fd a (write fd "while " w))) in
        write_redirections fd i (write fd "done " w1)

    pub print_else : ℕ → Branch → World → World
    print_else fd no_branch w = w
    print_else fd (branch e) w = write fd "fi " (printcmd fd e (write fd "else " w))

  -- The line of the profile that each command ends with, from the texts of the four times on.
  unfoldable pub profile : ℕ → Command → Option (List String) → World → Result
  profile fd c times w = or_exit times w λ texts.
      let w1 = printcmd fd c (write_all fd texts w) in
      finished c (write fd "\n" (write fd "]" (write fd (pid_text w1) (write fd "[" w1))))

  -- A redirection in the child of a simple command, which exits with status 1 if it fails.
  abbrev pub redirected :
      (String → World → Option World) → Option String → World → (World → ℕ × World) → ℕ × World
  redirected redirect none w k = k w
  redirected redirect (some file) w k = opened (redirect file w)
    where
      opened : Option World → ℕ × World
      opened none = (1, w)
      opened (some w1) = k w1

  -- What `execvp` gets: the words, less a leading `exec`.
  abbrev pub program : List String → List String
  program [] = []
  program (s ∷ rest) = if str_eq s "exec" then rest else s ∷ rest

  unfoldable pub run_child : Info → List String → World → ℕ × World
  run_child i word w =
      redirected redirect_input i.input w
        λ w1. redirected redirect_output i.output w1 λ w2. execvp (program word) w2

  -- The status and the world after the parent's `waitpid`; a `fork` that fails is not noticed.
  unfoldable pub run_simple : Info → List String → World → ℕ × World
  run_simple i word w = forked (fork w)
    where
      forked : Option World → ℕ × World
      forked none = (unset_status w, w)
      forked (some w1) = let (status, w2) = run_child i word w1 in (status, join w w2)

  unfoldable pub execute_simple_command : ℕ → Info → List String → World → Result
  execute_simple_command fd i word w = or_exit (now w) w λ start.
      let (status, w1) = run_simple i word w in
      profile fd (simple_command (record i { status = status }) word) (stamp_children start w1) w1

  -- The other kinds of command call `go` for the commands below them.
  module _ (go : Command → World → Result) (fd : ℕ) (i : Info) where
    -- The third command, if the condition fails.
    abbrev pub go_else : Branch → World → Outcome World Branch
    go_else no_branch w = finished no_branch w
    go_else (branch e) w = and_then (go e w) (λ e' w'. finished (branch e') w')

    unfoldable pub execute_if_command : Command → Command → Branch → World → Result
    execute_if_command a b e w = or_exit (now w) w λ start. and_then (go a w) λ a' w1.
        if command_status a' == 0
        then and_then (go b w1) (λ b' w2. profile fd (if_command i a' b' e) (stamp start w2) w2)
        else and_then (go_else e w1)
            (λ e' w2. profile fd (if_command i a' b e') (stamp start w2) w2)

    unfoldable pub execute_sequence_command : Command → Command → World → Result
    execute_sequence_command a b w = or_exit (now w) w λ start. and_then (go a w) λ a' w1.
        and_then (go b w1) λ b' w2. profile fd (sequence_command i a' b') (stamp start w2) w2

    -- The grandchild, which runs the left command, and then the child, which runs the right one.
    unfoldable pub execute_left : Pipe → Command → World → Result
    execute_left p a w = or_exit (to_writer p w) w λ w1. go a w1

    unfoldable pub execute_right : Pipe → Command → World → Result
    execute_right p b w = or_exit (to_reader p w) w λ w1. go b w1

    unfoldable pub execute_child : Pipe → Command → Command → World → Result
    execute_child p a b w =
        or_exit (fork w) w λ w1. last (execute_left p a w1) λ w2. execute_right p b (join w w2)

    -- Both commands run in other processes, so the parent's tree does not change.
    unfoldable pub execute_pipe_command : Command → Command → World → Result
    execute_pipe_command a b w = or_exit (now w) w λ start. or_exit (pipe w) w λ (p, w1).
        or_exit (fork w1) w1 λ w2. last (execute_child p a b w2) λ w3.
          let w4 = join (close_both p w1) w3 in profile fd (pipe_command i a b) (stamp start w4) w4

    unfoldable pub execute_subshell_command : Command → World → Result
    execute_subshell_command a w = or_exit (now w) w λ start.
        let j = info a in
        let redirected =
          with_info
            (record j { input = replace i.input j.input; output = replace i.output j.output }) a in
        and_then (go redirected w) λ a' w1. profile fd (subshell_command i a') (stamp start w1) w1

    -- The loops, with fuel for their rounds: `until` the condition's status is 0, `while` it is.
    unfoldable pub rounds :
        ℕ → (goes_on : ℕ → Bool) → Command → Command → World → Outcome World (Command × Command)
    rounds zero goes_on a b w = out_of_fuel
    rounds (suc fuel) goes_on a b w =
        let again =
          and_then (go b w) λ b' w1. and_then (go a w1) λ a' w2. rounds fuel goes_on a' b' w2 in
        if goes_on (command_status a) then again else finished (a, b) w

    unfoldable pub execute_until_command : ℕ → Command → Command → World → Result
    execute_until_command fuel a b w = or_exit (now w) w λ start. and_then (go a w) λ a' w1.
        and_then (rounds fuel (λ s. if s == 0 then false else true) a' b w1)
          λ (a'', b') w2. profile fd (until_command i a'' b') (stamp start w2) w2

    unfoldable pub execute_while_command : ℕ → Command → Command → World → Result
    execute_while_command fuel a b w = or_exit (now w) w λ start. and_then (go a w) λ a' w1.
        and_then (rounds fuel (λ s. s == 0) a' b w1)
          λ (a'', b') w2. profile fd (while_command i a'' b') (stamp start w2) w2

  -- Each level of the tree takes one unit of fuel, and so does each round of a loop.
  unfoldable pub execute_command : ℕ → ℕ → Command → World → Result
  execute_command zero fd c w = out_of_fuel
  execute_command (suc fuel) fd (if_command i a b e) w =
      execute_if_command (execute_command fuel fd) fd i a b e w
  execute_command (suc fuel) fd (pipe_command i a b) w =
      execute_pipe_command (execute_command fuel fd) fd i a b w
  execute_command (suc fuel) fd (sequence_command i a b) w =
      execute_sequence_command (execute_command fuel fd) fd i a b w
  execute_command (suc fuel) fd (simple_command i word) w = execute_simple_command fd i word w
  execute_command (suc fuel) fd (subshell_command i a) w =
      execute_subshell_command (execute_command fuel fd) fd i a w
  execute_command (suc fuel) fd (until_command i a b) w =
      execute_until_command (execute_command fuel fd) fd i fuel a b w
  execute_command (suc fuel) fd (while_command i a b) w =
      execute_while_command (execute_command fuel fd) fd i fuel a b w
