-- ===== src/Shell/System.antt =====
-- What the executor of lab1 calls: the operating system, as a parameter; and how a step of it ends.
use Prim.Native.String.{String}
use cs111fall.Prelude.{ℕ, Option, none, some, List}

-- The system calls. `now` is the first `clock_gettime`; `stamp` and `stamp_children` are the texts of the
-- four times at the end, without and with the children's. `fork` has the child's view of the world, and
-- `join` the parent's after `waitpid`, from its own view before and the child's last one. `redirect_input` and
-- `redirect_output` are an `open` and a `dup2`; `execvp` says how the process ends, with its exit status,
-- also where there is no such program and the child goes on in the shell's own code; `unset_status` is
-- `WEXITSTATUS` of a variable that no call has set. `to_writer` and `to_reader` close one end of a pipe and
-- `dup2` the other. A call that can fail has `none` for it.
-- `fault` is what a use of the null pointer that ends the words of a command without words leaves. Every call
-- returns here: a process that waits for ever, at a full pipe or for a program, is not modelled.
pub record System : Type 1 where
  pub World : Type 0
  pub fault : World → World
  pub Time : Type 0
  pub Pipe : Type 0
  pub now : World → Option Time
  pub stamp : Time → World → Option (List String)
  pub stamp_children : Time → World → Option (List String)
  pub pid_text : World → String
  pub write : ℕ → String → World → World
  pub fork : World → Option World
  pub join : World → World → World
  pub redirect_input : String → World → Option World
  pub redirect_output : String → World → Option World
  pub execvp : List String → World → ℕ × World
  pub unset_status : World → ℕ
  pub pipe : World → Option (Pipe × World)
  pub to_writer : Pipe → World → Option World
  pub to_reader : Pipe → World → Option World
  pub close_both : Pipe → World → World

-- A step ends, or the process exits, or the fuel is used up.
pub data Outcome (W A : Type 0) : Type 0 where
  finished : A → W → Outcome W A
  exited : W → Outcome W A
  out_of_fuel : Outcome W A

module _ {W A B : Type 0} where
  abbrev pub and_then : Outcome W A → (A → W → Outcome W B) → Outcome W B
  and_then (finished a w) k = k a w
  and_then (exited w) k = exited w
  and_then out_of_fuel k = out_of_fuel

  -- `if (... < 0) exit(1);`
  abbrev pub or_exit : Option A → W → (A → Outcome W B) → Outcome W B
  or_exit none w k = exited w
  or_exit (some a) w k = k a

-- What a child that has ended leaves, whether its commands ended or it exited.
abbrev pub last : {W A B : Type 0} → Outcome W A → (W → Outcome W B) → Outcome W B
last (finished a w) k = k w
last (exited w) k = k w
last out_of_fuel k = out_of_fuel
