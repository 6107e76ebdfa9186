-- ===== src/Shell/Status.antt =====
-- Only simple commands get an exit status from lab1/execute-command.c; what that makes of conditions.
use cs111fall.Prelude.{
  ℕ, zero, suc, ◌≡◌, refl, Bool, true, false, Option, none, some, ◌==◌, if◌then◌else◌,
}
use cs111fall.Shell.Syntax.{
  Info, Command, Branch, if_command, pipe_command, sequence_command, simple_command,
  subshell_command, until_command, while_command, info, command_status,
}
use cs111fall.Shell.System.{System, Outcome, finished, exited, out_of_fuel, and_then, or_exit, last}
use cs111fall.Shell.Execute.{
  Result, profile, go_else, execute_if_command, execute_sequence_command, execute_child,
  execute_pipe_command, execute_subshell_command, rounds, execute_until_command,
  execute_while_command, execute_command,
}

-- Every tree that an outcome has satisfies `P`.
abbrev pub Returns : {W A : Type 0} → (A → Type 0) → Outcome W A → Type 0
Returns P (finished a w) = P a
Returns P (exited w) = Unit {0}
Returns P out_of_fuel = Unit {0}

module _ {W A B : Type 0} (P : B → Type 0) where
  pub and_then-Returns :
      {Q : A → Type 0} (o : Outcome W A) (k : A → W → Outcome W B)
      → Returns Q o
      → ((a : A) (w : W) → Q a → Returns P (k a w))
      → Returns P (and_then o k)
  and_then-Returns (finished a w) k q h = h a w q
  and_then-Returns (exited w) k q h = tt
  and_then-Returns out_of_fuel k q h = tt

  pub or_exit-Returns :
      (o : Option A) (w : W) (k : A → Outcome W B)
      → ((a : A) → Returns P (k a))
      → Returns P (or_exit o w k)
  or_exit-Returns none w k h = tt
  or_exit-Returns (some a) w k h = h a

  pub last-Returns :
      (o : Outcome W A) (k : W → Outcome W B) → ((w : W) → Returns P (k w)) → Returns P (last o k)
  last-Returns (finished a w) k h = h w
  last-Returns (exited w) k h = h w
  last-Returns out_of_fuel k h = tt

abbrev pub Any : {A : Type 0} → A → Type 0
Any a = Unit {0}

pub Returns-Any : {W A : Type 0} (o : Outcome W A) → Returns Any o
Returns-Any (finished a w) = tt
Returns-Any (exited w) = tt
Returns-Any out_of_fuel = tt

-- All commands but the simple ones.
abbrev pub IsCompound : Command → Type 0
IsCompound (simple_command i w) = ⊥
IsCompound _ = Unit {0}

abbrev pub Keeps : Info → Command → Type 0
Keeps i c = (info c ≡ i) × IsCompound c

module _ (S : System) (fd : ℕ) where
  open S use {World, stamp, now, pipe, fork, join, close_both}

  profile-Returns :
      (P : Command → Type 0) (c : Command) (t : Option _) (w : World)
      → P c
      → Returns P (profile S fd c t w)
  unfolding profile
  profile-Returns P c none w h = tt
  profile-Returns P c (some t) w h = h

  module _ (go : Command → World → Result S) (i : Info) where
    execute_if_command-Keeps :
        (a b : Command) (e : Branch) (w : World)
        → Returns (Keeps i) (execute_if_command S go fd i a b e w)
    unfolding execute_if_command
    execute_if_command-Keeps a b e w = or_exit-Returns (Keeps i) (now w) w _ λ start.
        and_then-Returns (Keeps i) (go a w) _ (Returns-Any (go a w))
          λ a' w1 h. branches a' w1 start (command_status a' == 0)
      where
        branches :
            (a' : Command) (w1 : World) (start : _) (c : Bool)
            → Returns (Keeps i) (
                if c
                then and_then
                    (go b w1)
                    (λ b' w2. profile S fd (if_command i a' b' e) (stamp start w2) w2)
                else and_then
                    (go_else S go fd i e w1)
                    (λ e' w2. profile S fd (if_command i a' b e') (stamp start w2) w2))
        branches a' w1 start true =
            and_then-Returns (Keeps i) (go b w1) _ (Returns-Any (go b w1))
              λ b' w2 h. profile-Returns (Keeps i) _ _ w2 (refl, tt)
        branches a' w1 start false =
            and_then-Returns (Keeps i) (go_else S go fd i e w1) _
              (Returns-Any (go_else S go fd i e w1))
              λ e' w2 h. profile-Returns (Keeps i) _ _ w2 (refl, tt)

    execute_sequence_command-Keeps :
        (a b : Command) (w : World) → Returns (Keeps i) (execute_sequence_command S go fd i a b w)
    unfolding execute_sequence_command
    execute_sequence_command-Keeps a b w = or_exit-Returns (Keeps i) (now w) w _ λ start.
        and_then-Returns (Keeps i) (go a w) _ (Returns-Any (go a w)) λ a' w1 h.
          and_then-Returns (Keeps i) (go b w1) _ (Returns-Any (go b w1))
            λ b' w2 h'. profile-Returns (Keeps i) _ _ w2 (refl, tt)

    execute_pipe_command-Keeps :
        (a b : Command) (w : World) → Returns (Keeps i) (execute_pipe_command S go fd i a b w)
    unfolding execute_pipe_command
    execute_pipe_command-Keeps a b w = or_exit-Returns (Keeps i) (now w) w _ λ start.
        or_exit-Returns (Keeps i) (pipe w) w _ λ (p, w1).
          or_exit-Returns (Keeps i) (fork w1) w1 _ λ w2.
            last-Returns (Keeps i) (execute_child S go fd i p a b w2) _
              λ w3. profile-Returns (Keeps i) _ _ (join (close_both p w1) w3) (refl, tt)

    execute_subshell_command-Keeps :
        (a : Command) (w : World) → Returns (Keeps i) (execute_subshell_command S go fd i a w)
    unfolding execute_subshell_command
    execute_subshell_command-Keeps a w = or_exit-Returns (Keeps i) (now w) w _ λ start.
        and_then-Returns (Keeps i) (go _ w) _ (Returns-Any (go _ w))
          λ a' w1 h. profile-Returns (Keeps i) _ _ w1 (refl, tt)

    execute_until_command-Keeps :
        (fuel : ℕ) (a b : Command) (w : World)
        → Returns (Keeps i) (execute_until_command S go fd i fuel a b w)
    unfolding execute_until_command
    execute_until_command-Keeps fuel a b w = or_exit-Returns (Keeps i) (now w) w _ λ start.
        and_then-Returns (Keeps i) (go a w) _ (Returns-Any (go a w)) λ a' w1 h.
          and_then-Returns (Keeps i) (rounds S go fd i fuel _ a' b w1) _ (Returns-Any _)
            λ p w2 h'. profile-Returns (Keeps i) _ _ w2 (refl, tt)

    execute_while_command-Keeps :
        (fuel : ℕ) (a b : Command) (w : World)
        → Returns (Keeps i) (execute_while_command S go fd i fuel a b w)
    unfolding execute_while_command
    execute_while_command-Keeps fuel a b w = or_exit-Returns (Keeps i) (now w) w _ λ start.
        and_then-Returns (Keeps i) (go a w) _ (Returns-Any (go a w)) λ a' w1 h.
          and_then-Returns (Keeps i) (rounds S go fd i fuel _ a' b w1) _ (Returns-Any _)
            λ p w2 h'. profile-Returns (Keeps i) _ _ w2 (refl, tt)

  -- A command that is not simple keeps its status, whatever its parts do.
  pub execute_command-Keeps :
      (fuel : ℕ) (c : Command) (w : World)
      → IsCompound c
      → Returns (Keeps (info c)) (execute_command S fuel fd c w)
  unfolding execute_command
  execute_command-Keeps zero c w h = tt
  execute_command-Keeps (suc n) (if_command i a b e) w h =
      execute_if_command-Keeps (execute_command S n fd) i a b e w
  execute_command-Keeps (suc n) (pipe_command i a b) w h =
      execute_pipe_command-Keeps (execute_command S n fd) i a b w
  execute_command-Keeps (suc n) (sequence_command i a b) w h =
      execute_sequence_command-Keeps (execute_command S n fd) i a b w
  execute_command-Keeps (suc n) (simple_command i word) w h = absurd h
  execute_command-Keeps (suc n) (subshell_command i a) w h =
      execute_subshell_command-Keeps (execute_command S n fd) i a w
  execute_command-Keeps (suc n) (until_command i a b) w h =
      execute_until_command-Keeps (execute_command S n fd) i n a b w
  execute_command-Keeps (suc n) (while_command i a b) w h =
      execute_while_command-Keeps (execute_command S n fd) i n a b w
