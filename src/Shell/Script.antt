-- ===== src/Shell/Script.antt =====
-- What lab1/main.c returns.
use cs111fall.Prelude.{ℕ, ◌≡◌, ap, false, Option, none, some, List, [], ◌∷◌, ◌++◌}
use cs111fall.Shell.Syntax.{Command, command_status}
use cs111fall.Shell.System.{System}
use cs111fall.Shell.Execute.{execute_command}
use cs111fall.Shell.Main.{execute_commands, exit_status, main}
use cs111fall.Shell.Status.{
  Returns, Returns-Any, and_then-Returns, IsCompound, execute_command-Keeps,
}

module _ (S : System) (fuel fd : ℕ) where
  open S use {World}

  execute_commands-status :
      (script : List Command) (c : Command) (last_command : Option Command) (w : World)
      → IsCompound c
      → Returns
          (λ r. exit_status S fuel fd r ≡ command_status c)
          (execute_commands S fuel fd last_command (script ++ (c ∷ [])) w)
  unfolding execute_commands
  execute_commands-status [] c last_command w h =
      and_then-Returns (λ r. exit_status S fuel fd r ≡ command_status c)
        (execute_command S fuel fd c w) _ (execute_command-Keeps S fd fuel c w h)
        λ c' w1 k. ap (λ i. i.status) k.0
  execute_commands-status (x ∷ script) c last_command w h =
      and_then-Returns (λ r. exit_status S fuel fd r ≡ command_status c)
        (execute_command S fuel fd x w) _ (Returns-Any (execute_command S fuel fd x w))
        λ x' w1 k. execute_commands-status script c (some x') w1 h

  -- A script that ends in a command that is not simple returns that command's status before the execution,
  -- whatever its commands do.
  pub main-command_status :
      (script : List Command) (c : Command) (w : World)
      → IsCompound c
      → Returns (λ r. r ≡ (command_status c, [])) (main S fuel fd false (script ++ (c ∷ [])) w)
  unfolding main
  main-command_status script c w h =
      and_then-Returns (λ r. r ≡ (command_status c, []))
        (execute_commands S fuel fd none (script ++ (c ∷ [])) w) _
        (execute_commands-status script c none w h) λ last_command w1 e. ap (λ s. (s, [])) e
