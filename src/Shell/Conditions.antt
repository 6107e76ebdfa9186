-- ===== src/Shell/Conditions.antt =====
-- Conditions that are not simple commands: they fail whatever they do (lab1/execute-command.c).
use cs111fall.Prelude.{
  ℕ, zero, suc, ◌≡◌, refl, ◌≢◌, true, false, Option, none, some, ◌==◌, if◌then◌else◌, ne→==, ◌∙◌,
  ap, sym,
}
use cs111fall.Shell.Syntax.{
  Info, Command, Branch, if_command, until_command, while_command, info, command_status,
}
use cs111fall.Shell.System.{System, Outcome, finished, exited, out_of_fuel, and_then, or_exit}
use cs111fall.Shell.Execute.{
  Result, profile, go_else, execute_if_command, rounds, execute_until_command,
  execute_while_command, execute_command,
}
use cs111fall.Shell.Status.{
  Returns, Returns-Any, and_then-Returns, or_exit-Returns, IsCompound, Keeps, execute_command-Keeps,
}

module _ {W A B : Type 0} where
  and_then-cong :
      {Q : A → Type 0} (o : Outcome W A) (k k' : A → W → Outcome W B)
      → Returns Q o
      → ((a : A) (w : W) → Q a → k a w ≡ k' a w)
      → and_then o k ≡ and_then o k'
  and_then-cong (finished a w) k k' q h = h a w q
  and_then-cong (exited w) k k' q h = refl
  and_then-cong out_of_fuel k k' q h = refl

  or_exit-cong :
      (o : Option A) (w : W) (k k' : A → Outcome W B)
      → ((a : A) → k a ≡ k' a)
      → or_exit o w k ≡ or_exit o w k'
  or_exit-cong none w k k' h = refl
  or_exit-cong (some a) w k k' h = h a

abbrev pub Never : {A : Type 0} → A → Type 0
Never a = ⊥

module _ (S : System) (fd : ℕ) where
  open S use {World, stamp, now}

  -- The condition, then the third command if there is one, and the profile.
  abbrev pub run_else :
      (Command → World → Result S) → Info → Command → Command → Branch → World → Result S
  run_else go i a b e w = or_exit (now w) w λ start. and_then (go a w) λ a' w1.
      and_then (go_else S go fd i e w1)
        λ e' w2. profile S fd (if_command i a' b e') (stamp start w2) w2

  -- The condition once, and the profile.
  abbrev pub run_once : (Command → World → Result S) → Info → Command → Command → World → Result S
  run_once go i a b w =
      or_exit (now w) w
        λ start. and_then (go a w) λ a' w1. profile S fd (while_command i a' b) (stamp start w1) w1

  module _ (a : Command) (compound : IsCompound a) (failing : command_status a ≢ 0) where
    -- What every execution of the condition keeps.
    abbrev Fails : Command → Type 0
    Fails c = (command_status c ≢ 0) × IsCompound c

    Keeps-Fails : (c : Command) → Keeps (info a) c → Fails c
    Keeps-Fails c k = (λ z. failing (sym (ap (λ i. i.status) k.0) ∙ z), k.1)

    status-Fails : (c : Command) → Fails c → (command_status c == 0) ≡ false
    status-Fails c f = ne→== (command_status c) 0 f.0

    condition : (fuel : ℕ) (w : World) → Returns (Keeps (info a)) (execute_command S fuel fd a w)
    condition fuel w = execute_command-Keeps S fd fuel a w compound

    -- An `if` whose condition is not a simple command, and has not the status 0 before, never runs its
    -- second command: it runs the condition and then its third command, if there is one.
    pub execute_if_command-run_else :
        (fuel : ℕ) (i : Info) (b : Command) (e : Branch) (w : World)
        → execute_command S (suc fuel) fd (if_command i a b e) w
          ≡ run_else (execute_command S fuel fd) i a b e w
    unfolding execute_command execute_if_command
    execute_if_command-run_else fuel i b e w = or_exit-cong (now w) w _ _ λ start.
        and_then-cong (execute_command S fuel fd a w) _ _ (condition fuel w)
          λ a' w1 k. rw (status-Fails a' (Keeps-Fails a' k)) refl

    -- A `while` with such a condition never runs its body.
    pub execute_while_command-run_once :
        (fuel : ℕ) (i : Info) (b : Command) (w : World)
        → execute_command S (suc (suc fuel)) fd (while_command i a b) w
          ≡ run_once (execute_command S (suc fuel) fd) i a b w
    unfolding execute_command execute_while_command rounds
    execute_while_command-run_once fuel i b w = or_exit-cong (now w) w _ _ λ start.
        and_then-cong (execute_command S (suc fuel) fd a w) _ _ (condition (suc fuel) w)
          λ a' w1 k. rw (status-Fails a' (Keeps-Fails a' k)) refl

  abbrev Failing : Command → Type 0
  Failing c = (command_status c ≢ 0) × IsCompound c

  Keeps-Failing : (c c' : Command) → Failing c → Keeps (info c) c' → Failing c'
  Keeps-Failing c c' f k = (λ z. f.0 (sym (ap (λ i. i.status) k.0) ∙ z), k.1)

  rounds-Never :
      (n : ℕ) (i : Info) (fuel : ℕ) (a b : Command) (w : World)
      → Failing a
      → Returns Never
          (rounds S (execute_command S n fd) fd i fuel (λ s. if s == 0 then false else true) a b w)
  unfolding rounds
  rounds-Never n i zero a b w f = tt
  rounds-Never n i (suc fuel) a b w f = rw (ne→== (command_status a) 0 f.0) (
      and_then-Returns Never (execute_command S n fd b w) _
        (Returns-Any (execute_command S n fd b w))
        λ b' w1 h.
          and_then-Returns Never (execute_command S n fd a w1) _
            (execute_command-Keeps S fd n a w1 f.1)
            λ a' w2 k. rounds-Never n i fuel a' b' w2 (Keeps-Failing a a' f k))

  -- An `until` whose condition is not a simple command, and has not the status 0 before, never comes to
  -- its end, with any fuel: it goes on for ever, or the shell exits within it.
  pub execute_until_command-Never :
      (fuel : ℕ) (i : Info) (a b : Command) (w : World)
      → IsCompound a
      → command_status a ≢ 0
      → Returns Never (execute_command S fuel fd (until_command i a b) w)
  unfolding execute_command execute_until_command
  execute_until_command-Never zero i a b w compound failing = tt
  execute_until_command-Never (suc n) i a b w compound failing =
      or_exit-Returns Never (now w) w _ λ start.
        and_then-Returns Never (execute_command S n fd a w) _
          (execute_command-Keeps S fd n a w compound)
          λ a' w1 k.
            and_then-Returns Never
              (rounds S (execute_command S n fd) fd i n (λ s. if s == 0 then false else true) a' b
                w1)
              _ (rounds-Never n i n a' b w1 (Keeps-Failing a a' (failing, compound) k))
              λ p w2 h. absurd h
