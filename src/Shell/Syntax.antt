-- ===== src/Shell/Syntax.antt =====
-- lab1/command-internals.h: command trees.
use Prim.Native.String.{String}
use cs111fall.Prelude.{ℕ, ◌-◌, ◌^◌, Option, List}

-- The members that all commands have. A status holds its 32-bit pattern.
pub record Info : Type 0 where
  pub status : ℕ
  pub input : Option String
  pub output : Option String

-- The bit pattern of -1, the status of a command that has not been executed.
abbrev pub unknown : ℕ
unknown = 2 ^ 32 - 1

mutual
  pub data Command : Type 0 where
    if_command : Info → Command → Command → Branch → Command
    pipe_command : Info → Command → Command → Command
    sequence_command : Info → Command → Command → Command
    simple_command : Info → (word : List String) → Command
    subshell_command : Info → Command → Command
    until_command : Info → Command → Command → Command
    while_command : Info → Command → Command → Command

  -- The third command of an `if`, which may be null.
  pub data Branch : Type 0 where
    no_branch : Branch
    branch : Command → Branch

abbrev pub info : Command → Info
info (if_command i a b e) = i
info (pipe_command i a b) = i
info (sequence_command i a b) = i
info (simple_command i w) = i
info (subshell_command i a) = i
info (until_command i a b) = i
info (while_command i a b) = i

abbrev pub with_info : Info → Command → Command
with_info i (if_command j a b e) = if_command i a b e
with_info i (pipe_command j a b) = pipe_command i a b
with_info i (sequence_command j a b) = sequence_command i a b
with_info i (simple_command j w) = simple_command i w
with_info i (subshell_command j a) = subshell_command i a
with_info i (until_command j a b) = until_command i a b
with_info i (while_command j a b) = while_command i a b

-- `command_status` of lab1/execute-command.c.
abbrev pub command_status : Command → ℕ
command_status c = (info c).status
